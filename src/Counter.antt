-- ===== src/Counter.antt =====
-- threads-locks/locked data structures/counter.cpp: a counter under a lock, called by any threads;
-- and class Counter of threads-locks/atomic-tutorial/fetch.cpp.
pub mod Laws
use ostep_code.Prelude.{ℕ, ◌+◌, ◌-◌, ◌%◌, ◌^◌, Option, none, some, ◌>>=◌, ℤ, pos, add_one, sub_one}
use ostep_code.Threads.{System}
use ostep_code.Sema.{sem_wait, sem_post}

-- `counter_t`; the lock is a semaphore of one permit.
pub record CounterT : Type 0 where
  pub value : ℤ
  pub lock : ℕ

-- `init`
abbrev pub init_counter : CounterT
init_counter = record { value = pos 0; lock = 1 }

-- Which of the three functions is called.
pub data Call : Type 0 where
  increment decrement get : Call

-- Before the lock, before the access of `value`, before the unlock with what was read, and
-- returned with it.
pub data Point : Type 0 where
  lock access : Call → Point
  unlock over : Call → ℤ → Point

abbrev pub changed : Call → ℤ → ℤ
changed increment v = add_one v
changed decrement v = sub_one v
changed get v = v

unfoldable pub step : CounterT → Point → Option (CounterT × Point)
step m (lock c) = do v ← sem_wait m.lock; some (record m { lock = v }, access c)
step m (access c) = some (record m { value = changed c m.value }, unlock c m.value)
step m (unlock c rc) = some (record m { lock = sem_post m.lock }, over c rc)
step m (over c rc) = none

-- Threads that call what `calls` says.
abbrev pub init_calls : (ℕ → Call) → System CounterT Point
init_calls calls = record { mem = init_counter; pc = λ i. lock (calls i) }

-- `count.fetch_add(1)` and `count.fetch_sub(1)` on an atomic int, whose arithmetic goes round, given
-- as `unsigned`: the number after the call, and what it returns.
abbrev pub fetch_add : ℕ → ℕ × ℕ
fetch_add count = ((count + 1) % 2 ^ 32, count)

abbrev pub fetch_sub : ℕ → ℕ × ℕ
fetch_sub count = ((count + (2 ^ 32 - 1)) % 2 ^ 32, count)
