-- ===== src/Semaphores/Zem.antt =====
-- threads-sema/zemaphore.h: a semaphore from a lock and a condition variable; its operations are
-- sections under the lock. A semaphore starts with a value that is not negative.
pub mod Laws
use ostep_code.Prelude.{ℕ, ◌+◌, ◌-◌, Option, none, some, ◌>>=◌, ◌==◌, if◌then◌else◌}
use ostep_code.Threads.{System}
use ostep_code.Cond.{Cond, cond_init, cond_wait, cond_wake, cond_signal}
use ostep_code.Sema.{sem_wait, sem_post}

pub record Zem : Type 0 where
  pub value : ℕ
  pub cond : Cond

-- `Zem_init`
abbrev pub zem_init : ℕ → Zem
zem_init value = record { value = value; cond = cond_init }

-- In `Zem_wait`: at the loop's test with the lock, asleep, returned. In `Zem_post`: before the
-- lock, returned.
pub data Point : Type 0 where
  zem_test zem_sleep zem_passed : Point
  zem_post zem_posted : Point

unfoldable pub step_zem : Zem → Point → Option (Zem × Point)
step_zem z zem_test =
    if z.value == 0
    then some (record z { cond = cond_wait z.cond }, zem_sleep)
    else some (record z { value = z.value - 1 }, zem_passed)
step_zem z zem_sleep = do c ← cond_wake z.cond; some (record z { cond = c }, zem_test)
step_zem z zem_passed = none
step_zem z zem_post = some (record { value = z.value + 1; cond = cond_signal z.cond }, zem_posted)
step_zem z zem_posted = none

-- The same threads on a semaphore of the operating system.
unfoldable pub step_sema : ℕ → Point → Option (ℕ × Point)
step_sema s zem_test = do v ← sem_wait s; some (v, zem_passed)
step_sema s zem_sleep = do v ← sem_wait s; some (v, zem_passed)
step_sema s zem_passed = none
step_sema s zem_post = some (sem_post s, zem_posted)
step_sema s zem_posted = none

-- Threads that call `Zem_wait` or `Zem_post`, as `calls` says.
abbrev pub init_zem : ℕ → (ℕ → Point) → System Zem Point
init_zem value calls = record { mem = zem_init value; pc = calls }

abbrev pub init_sema : ℕ → (ℕ → Point) → System ℕ Point
init_sema value calls = record { mem = value; pc = calls }
