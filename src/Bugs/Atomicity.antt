-- ===== src/Bugs/Atomicity.antt =====
-- threads-bugs/atomicity.c and atomicity_fixed.c: `thread1` tests `thd->proc_info` and reads
-- through it, `thread2` sets it to NULL. A mutex is a semaphore of one permit.
pub mod Laws
use ostep_code.Prelude.{ℕ, zero, suc, Option, none, some, ◌>>=◌}
use ostep_code.Threads.{System}
use ostep_code.Sema.{sem_wait, sem_post}

-- `thd->proc_info`, which points to a process with a `pid` or is NULL; and `proc_info_lock`, which
-- only atomicity_fixed.c has.
pub record Memory : Type 0 where
  pub proc_info : Option ℕ
  pub proc_info_lock : ℕ

-- `thread1` before its lock, its test, its use of the pointer and its unlock; `thread2` before its
-- lock, its write and its unlock; and a thread that has read through NULL or has returned.
pub data Point : Type 0 where
  lock_1 check use_info unlock_1 lock_2 clear unlock_2 crashed over : Point

-- A step of `thread1` or `thread2` of atomicity.c.
unfoldable pub step : Memory → Point → Option (Memory × Point)
step m check = elim m.proc_info [ none ↦ some (m, over) | some pid ↦ some (m, use_info) ]
step m use_info = elim m.proc_info [ none ↦ some (m, crashed) | some pid ↦ some (m, over) ]
step m clear = some (record m { proc_info = none }, over)
step m _ = none

-- A step of `thread1` or `thread2` of atomicity_fixed.c.
unfoldable pub step_fixed : Memory → Point → Option (Memory × Point)
step_fixed m lock_1 = do
  v ← sem_wait m.proc_info_lock
  some (record m { proc_info_lock = v }, check)
step_fixed m check = elim m.proc_info [ none ↦ some (m, unlock_1) | some pid ↦ some (m, use_info) ]
step_fixed m use_info = elim m.proc_info [
  | none ↦ some (m, crashed)
  | some pid ↦ some (m, unlock_1)
]
step_fixed m unlock_1 = some (record m { proc_info_lock = sem_post m.proc_info_lock }, over)
step_fixed m lock_2 = do
  v ← sem_wait m.proc_info_lock
  some (record m { proc_info_lock = v }, clear)
step_fixed m clear = some (record m { proc_info = none }, unlock_2)
step_fixed m unlock_2 = some (record m { proc_info_lock = sem_post m.proc_info_lock }, over)
step_fixed m crashed = none
step_fixed m over = none

-- `main` of atomicity.c, and of atomicity_fixed.c, with `p.pid`.
abbrev pub init : ℕ → System Memory Point
init pid = record { mem = record { proc_info = some pid; proc_info_lock = 1 }; pc = points }
  where
    points : ℕ → Point
    points zero = check
    points (suc i) = clear

abbrev pub init_fixed : ℕ → System Memory Point
init_fixed pid = record { mem = record { proc_info = some pid; proc_info_lock = 1 }; pc = points }
  where
    points : ℕ → Point
    points zero = lock_1
    points (suc i) = lock_2
