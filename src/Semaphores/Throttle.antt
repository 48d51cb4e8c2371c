-- ===== src/Semaphores/Throttle.antt =====
-- threads-sema/throttle.c: children that pass a semaphore of `sem_value` permits.
pub mod Laws
use ostep_code.Prelude.{ℕ, Option, none, some, ◌>>=◌}
use ostep_code.Threads.{System}
use ostep_code.Sema.{sem_wait, sem_post}

-- Before `Sem_wait`, in the message and the sleep, and returned.
pub data Point : Type 0 where
  outside inside over : Point

-- A step of `child`, on the semaphore `s`.
unfoldable pub step : ℕ → Point → Option (ℕ × Point)
step s outside = do v ← sem_wait s; some (v, inside)
step s inside = some (sem_post s, over)
step s over = none

-- `main`
abbrev pub init : ℕ → System ℕ Point
init sem_value = record { mem = sem_value; pc = λ i. outside }
