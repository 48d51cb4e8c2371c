-- ===== src/Join.antt =====
-- A parent that waits for its child: threads-cv/join*.c, threads-sema/join.c and thr_exit and
-- thr_join of threads-locks/c++11-Producer-consumer/condition_varaible.cpp. Thread 0 is the
-- parent, thread 1 the child. A mutex is a semaphore of one permit.
pub mod Laws
pub mod Modular
pub mod Lost
pub mod Sem
mod Tests
use ostep_code.Prelude.{ℕ, zero, suc, ◌+◌, Option, none, some, ◌>>=◌, if◌then◌else◌, ◌==◌}
use ostep_code.Threads.{System}
use ostep_code.Sema.{sem_wait, sem_post}
use ostep_code.Cond.{Cond, cond_init, cond_wait, cond_wake, cond_signal}

-- `done`, `c` and `m`.
pub record Memory : Type 0 where
  pub is_done : ℕ
  pub cond : Cond
  pub mutex : ℕ

-- The child before its lock, its write of `done`, its signal and its unlock; the parent before its
-- lock, at its test, before `pthread_cond_wait`, asleep, on its way out of `pthread_cond_wait`, and before its unlock; and a
-- thread that has returned.
pub data Point : Type 0 where
  lock_child set_done signal_parent unlock_child : Point
  lock_parent test to_wait asleep relock unlock_parent over : Point

abbrev pub lock : Memory → Point → Option (Memory × Point)
lock m p = do v ← sem_wait m.mutex; some (record m { mutex = v }, p)

abbrev pub unlock : Memory → Point → Option (Memory × Point)
unlock m p = some (record m { mutex = sem_post m.mutex }, p)

-- `pthread_cond_wait`: to sleep, and up again.
abbrev pub fall_asleep : Memory → Memory
fall_asleep m = record m { cond = cond_wait m.cond; mutex = sem_post m.mutex }

abbrev pub wake_up : Memory → Point → Option (Memory × Point)
wake_up m p = do c ← cond_wake m.cond; some (record m { cond = c }, p)

-- A step of `thr_exit`, which is the text of join.c's `child` too.
unfoldable pub thr_exit : Memory → Point → Option (Memory × Point)
thr_exit m lock_child = lock m set_done
thr_exit m set_done = some (record m { is_done = 1 }, signal_parent)
thr_exit m signal_parent = some (record m { cond = cond_signal m.cond }, unlock_child)
thr_exit m unlock_child = unlock m over
thr_exit m _ = none

-- A step of `thr_join`.
unfoldable pub thr_join : Memory → Point → Option (Memory × Point)
thr_join m lock_parent = lock m test
thr_join m test = if m.is_done == 0 then some (m, to_wait) else some (m, unlock_parent)
thr_join m to_wait = some (fall_asleep m, asleep)
thr_join m asleep = wake_up m relock
thr_join m relock = lock m test
thr_join m unlock_parent = unlock m over
thr_join m _ = none

-- A step of the child or of the parent in join.c.
unfoldable pub step : Memory → Point → Option (Memory × Point)
unfolding thr_exit thr_join
step m lock_child = thr_exit m lock_child
step m set_done = thr_exit m set_done
step m signal_parent = thr_exit m signal_parent
step m unlock_child = thr_exit m unlock_child
step m p = thr_join m p

abbrev pub start : Memory
start = record { is_done = 0; cond = cond_init; mutex = 1 }

abbrev pub points : ℕ → Point
points zero = lock_parent
points (suc i) = lock_child

abbrev pub init : System Memory Point
init = record { mem = start; pc = points }
