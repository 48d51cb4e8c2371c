-- ===== src/HandOver.antt =====
-- One thread prepares data and tells the other: conditional_variable.cpp, atomic-flag.cpp and
-- promise-future.cpp of threads-locks/c++11-Producer-consumer. Thread 0 is the receiver, thread 1
-- the sender. A mutex is a semaphore of one permit.
pub mod Laws
mod Tests
use ostep_code.Prelude.{
  ℕ, zero, suc, ◌+◌, Bool, true, false, Option, none, some, ◌>>=◌, if◌then◌else◌, List, [], ◌∷◌,
  ◌++◌,
}
use ostep_code.Threads.{System}
use ostep_code.Sema.{sem_wait, sem_post}
use ostep_code.Cond.{Cond, cond_init, cond_wait, cond_wake, cond_signal}

-- `my_vec`, `mutex_` and `cond_`; and whether the other programs' flag is set, or their promise
-- is done with.
pub record Memory : Type 0 where
  pub my_vec : List ℕ
  pub mutex : ℕ
  pub cond : Cond
  pub ready : Bool

-- `PrepareWork` before its lock, its insertion, its unlock and its signal; `CompleteWork` before
-- its lock, at the test, before the wait, asleep, on its way out of the wait, before its write and
-- before its unlock; a thread that has written past the end, and one that has returned.
pub data Point : Type 0 where
  lock_send insert unlock_send tell : Point
  lock_receive test to_wait asleep relock write unlock_receive faulted over : Point

-- `my_vec.insert(my_vec.end(), {0,1,0,3})`
abbrev pub insert_data : List ℕ → List ℕ
insert_data xs = xs ++ 0 ∷ 1 ∷ 0 ∷ 3 ∷ []

-- `my_vec[2] = 2`, which a vector of fewer than three has no room for.
abbrev pub write_second : List ℕ → Option (List ℕ)
write_second (a ∷ b ∷ c ∷ xs) = some (a ∷ b ∷ 2 ∷ xs)
write_second _ = none

abbrev pub is_empty : List ℕ → Bool
is_empty [] = true
is_empty (x ∷ xs) = false

abbrev pub write_data : Memory → Point → Option (Memory × Point)
write_data m p = elim (write_second m.my_vec) [
  | none ↦ some (m, faulted)
  | some xs ↦ some (record m { my_vec = xs }, p)
]

-- A step of `PrepareWork` or `CompleteWork` of conditional_variable.cpp.
unfoldable pub step_cond : Memory → Point → Option (Memory × Point)
step_cond m lock_send = do v ← sem_wait m.mutex; some (record m { mutex = v }, insert)
step_cond m insert = some (record m { my_vec = insert_data m.my_vec }, unlock_send)
step_cond m unlock_send = some (record m { mutex = sem_post m.mutex }, tell)
step_cond m tell = some (record m { cond = cond_signal m.cond }, over)
step_cond m lock_receive = do v ← sem_wait m.mutex; some (record m { mutex = v }, test)
step_cond m test = some (m, if is_empty m.my_vec then to_wait else write)
step_cond m to_wait = some (record m { cond = cond_wait m.cond; mutex = sem_post m.mutex }, asleep)
step_cond m asleep = do c ← cond_wake m.cond; some (record m { cond = c }, relock)
step_cond m relock = do v ← sem_wait m.mutex; some (record m { mutex = v }, test)
step_cond m write = write_data m unlock_receive
step_cond m unlock_receive = some (record m { mutex = sem_post m.mutex }, over)
step_cond m faulted = none
step_cond m over = none

-- A step of `prepareWork` or `completeWork` of atomic-flag.cpp: a wait for the flag that would go
-- on has no step.
unfoldable pub step_flag : Memory → Point → Option (Memory × Point)
step_flag m insert = some (record m { my_vec = insert_data m.my_vec }, tell)
step_flag m tell = some (record m { ready = true }, over)
step_flag m asleep = if m.ready then some (m, write) else none
step_flag m write = write_data m over
step_flag m _ = none

-- A step of `PrepareWork` or `CompleteWork` of promise-future.cpp. No value is set: the promise is
-- done with when `PrepareWork` returns and destroys it, and this ends `fut.wait()`.
unfoldable pub step_promise : Memory → Point → Option (Memory × Point)
step_promise m insert = some (record m { my_vec = insert_data m.my_vec }, tell)
step_promise m tell = some (record m { ready = true }, over)
step_promise m asleep = if m.ready then some (m, write) else none
step_promise m write = write_data m over
step_promise m _ = none

-- `main`, with the points at which the receiver and the sender start.
abbrev pub begins : Point → Point → ℕ → Point
begins receiver sender zero = receiver
begins receiver sender (suc i) = sender

abbrev pub start : Memory
start = record { my_vec = []; mutex = 1; cond = cond_init; ready = false }

abbrev pub init_cond : System Memory Point
init_cond = record { mem = start; pc = begins lock_receive lock_send }

abbrev pub init_flag : System Memory Point
init_flag = record { mem = start; pc = begins asleep insert }

abbrev pub init_promise : System Memory Point
init_promise = record { mem = start; pc = begins asleep insert }
