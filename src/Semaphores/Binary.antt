-- ===== src/Semaphores/Binary.antt =====
-- threads-sema/binary.c: two threads count up the same counter, under a semaphore of value 1.
pub mod Laws
use ostep_code.Prelude.{ℕ, ◌+◌, Option, none, some, ◌>>=◌, ltb, if◌then◌else◌}
use ostep_code.Threads.{System}
use ostep_code.Sema.{sem_wait, sem_post}

pub record Memory : Type 0 where
  pub mutex : ℕ
  pub counter : ℕ

-- In round `i`: at the loop's test, before `Sem_wait`, before the load of `counter`, before the
-- store with the value that was read, before `Sem_post`; and returned.
pub data Point : Type 0 where
  test wait load : ℕ → Point
  store : ℕ → ℕ → Point
  post : ℕ → Point
  over : Point

-- A step of `child`, with `loops` for 10000000.
unfoldable pub step : ℕ → Memory → Point → Option (Memory × Point)
step loops m (test i) = if ltb i loops then some (m, wait i) else some (m, over)
step loops m (wait i) = do v ← sem_wait m.mutex; some (record m { mutex = v }, load i)
step loops m (load i) = some (m, store i m.counter)
step loops m (store i x) = some (record m { counter = x + 1 }, post i)
step loops m (post i) = some (record m { mutex = sem_post m.mutex }, test (i + 1))
step loops m over = none

-- `main`
abbrev pub init : System Memory Point
init = record { mem = record { mutex = 1; counter = 0 }; pc = λ i. test 0 }
