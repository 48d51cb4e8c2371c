-- ===== src/Semaphores/NoStarve.antt =====
-- threads-sema/no-starve-mutex.c: a mutex of two rooms and two turnstiles.
pub mod Laws
use ostep_code.Prelude.{
  ℕ, ◌+◌, ◌-◌, Option, none, some, ◌>>=◌, if◌then◌else◌, ℤ, pos, eq_ℤ, add_one, sub_one,
}
use ostep_code.Threads.{System}
use ostep_code.Sema.{sem_wait, sem_post}

pub record NsMutex : Type 0 where
  pub room1 : ℤ
  pub room2 : ℤ
  pub mutex : ℕ
  pub t1 : ℕ
  pub t2 : ℕ

-- `ns_mutex_init`
abbrev pub ns_mutex_init : NsMutex
ns_mutex_init = record { room1 = pos 0; room2 = pos 0; mutex = 1; t1 = 1; t2 = 1 }

-- The points of a thread that takes and gives the mutex up again and again. `room2` is read and
-- written in two steps, since `mutex` does not protect it.
pub data Point : Type 0 where
  -- `ns_mutex_acquire`: into room 1
  wait_mutex enter_room1 post_mutex : Point
  -- from room 1 to room 2
  wait_t1 load_enter : Point
  store_enter : ℤ → Point
  again_mutex leave_room1 test_room1 : Point
  last_mutex post_t2 more_mutex post_t1 : Point
  -- out of room 2
  wait_t2 load_leave : Point
  store_leave : ℤ → Point
  -- the critical section, and `ns_mutex_release`
  critical release release_t1 release_t2 : Point

unfoldable pub step : NsMutex → Point → Option (NsMutex × Point)
step m wait_mutex = do v ← sem_wait m.mutex; some (record m { mutex = v }, enter_room1)
step m enter_room1 = some (record m { room1 = add_one m.room1 }, post_mutex)
step m post_mutex = some (record m { mutex = sem_post m.mutex }, wait_t1)
step m wait_t1 = do v ← sem_wait m.t1; some (record m { t1 = v }, load_enter)
step m load_enter = some (m, store_enter m.room2)
step m (store_enter x) = some (record m { room2 = add_one x }, again_mutex)
step m again_mutex = do v ← sem_wait m.mutex; some (record m { mutex = v }, leave_room1)
step m leave_room1 = some (record m { room1 = sub_one m.room1 }, test_room1)
step m test_room1 = some (m, if eq_ℤ m.room1 (pos 0) then last_mutex else more_mutex)
step m last_mutex = some (record m { mutex = sem_post m.mutex }, post_t2)
step m post_t2 = some (record m { t2 = sem_post m.t2 }, wait_t2)
step m more_mutex = some (record m { mutex = sem_post m.mutex }, post_t1)
step m post_t1 = some (record m { t1 = sem_post m.t1 }, wait_t2)
step m wait_t2 = do v ← sem_wait m.t2; some (record m { t2 = v }, load_leave)
step m load_leave = some (m, store_leave m.room2)
step m (store_leave x) = some (record m { room2 = sub_one x }, critical)
step m critical = some (m, release)
step m release = some (m, if eq_ℤ m.room2 (pos 0) then release_t1 else release_t2)
step m release_t1 = some (record m { t1 = sem_post m.t1 }, wait_mutex)
step m release_t2 = some (record m { t2 = sem_post m.t2 }, wait_mutex)

-- Threads before `ns_mutex_acquire`, on a mutex whose `t2` starts at `v`.
abbrev pub init : ℕ → System NsMutex Point
init v = record { mem = record ns_mutex_init { t2 = v }; pc = λ i. wait_mutex }
