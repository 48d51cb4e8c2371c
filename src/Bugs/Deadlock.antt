-- ===== src/Bugs/Deadlock.antt =====
-- threads-bugs/deadlock.c: two threads that take two mutexes in opposite orders. A mutex is a
-- semaphore of one permit.
pub mod Laws
use ostep_code.Prelude.{ℕ, zero, suc, Option, none, some, ◌>>=◌}
use ostep_code.Threads.{System}
use ostep_code.Sema.{sem_wait, sem_post}

-- `L1` and `L2`.
pub record Memory : Type 0 where
  pub l1 : ℕ
  pub l2 : ℕ

-- Before the first lock, before the second, before the unlock of `L1`, before that of `L2`, and
-- returned.
pub data At : Type 0 where
  outside one_lock unlock_l1 unlock_l2 over : At

pub data Point : Type 0 where
  thread_1 thread_2 : At → Point

abbrev pub lock_l1 : Memory → Point → Option (Memory × Point)
lock_l1 m p = do v ← sem_wait m.l1; some (record m { l1 = v }, p)

abbrev pub lock_l2 : Memory → Point → Option (Memory × Point)
lock_l2 m p = do v ← sem_wait m.l2; some (record m { l2 = v }, p)

-- A step of `thread1` or `thread2`.
unfoldable pub step : Memory → Point → Option (Memory × Point)
step m (thread_1 outside) = lock_l1 m (thread_1 one_lock)
step m (thread_1 one_lock) = lock_l2 m (thread_1 unlock_l1)
step m (thread_1 unlock_l1) = some (record m { l1 = sem_post m.l1 }, thread_1 unlock_l2)
step m (thread_1 unlock_l2) = some (record m { l2 = sem_post m.l2 }, thread_1 over)
step m (thread_1 over) = none
step m (thread_2 outside) = lock_l2 m (thread_2 one_lock)
step m (thread_2 one_lock) = lock_l1 m (thread_2 unlock_l1)
step m (thread_2 unlock_l1) = some (record m { l1 = sem_post m.l1 }, thread_2 unlock_l2)
step m (thread_2 unlock_l2) = some (record m { l2 = sem_post m.l2 }, thread_2 over)
step m (thread_2 over) = none

abbrev pub points : ℕ → Point
points zero = thread_1 outside
points (suc i) = thread_2 outside

abbrev pub init : System Memory Point
init = record { mem = record { l1 = 1; l2 = 1 }; pc = points }
