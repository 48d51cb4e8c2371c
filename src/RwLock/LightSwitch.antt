-- ===== src/RwLock/LightSwitch.antt =====
-- struct LightSwitch of threads-sema/rwlock_writer_starvation.cpp. The same text stands in
-- rwlock-1writerprogress.cpp and rwlock-writer-priority.cpp.
pub mod Inv
pub mod Count
use ostep_code.Prelude.{ℕ, ◌+◌, ◌-◌, Option, none, some, ◌>>=◌, ◌==◌, if◌then◌else◌}
use ostep_code.Sema.{sem_wait, sem_post}

pub record LightSwitch : Type 0 where
  pub counter : ℕ
  pub mutex : ℕ

abbrev pub init_switch : LightSwitch
init_switch = record { counter = 0; mutex = 1 }

-- Where a thread stands in `lock` or `unlock`: before `sem_wait(&mutex)`, before the update of
-- `counter`, before the call on `semaphore`, before `sem_post(&mutex)`.
pub data At : Type 0 where
  enter count light leave : At

-- Where a thread stands with regard to a switch: it has not called `lock`, is in `lock`, has
-- returned from `lock`, or is in `unlock`.
pub data Place : Type 0 where
  out inside : Place
  locking unlocking : At → Place

-- The update of `counter` and the test of it are one step, since the thread holds `mutex`.
pub lock : LightSwitch → ℕ → At → Option (LightSwitch × ℕ × Place)
lock s semaphore enter = do
  m ← sem_wait s.mutex
  some (record s { mutex = m }, semaphore, locking count)
lock s semaphore count =
    let s' = record s { counter = s.counter + 1 } in
    if s'.counter == 1
    then some (s', semaphore, locking light)
    else some (s', semaphore, locking leave)
lock s semaphore light = do v ← sem_wait semaphore; some (s, v, locking leave)
lock s semaphore leave = some (record s { mutex = sem_post s.mutex }, semaphore, inside)

-- `counter--` runs only at a positive counter: `Inv.counter_pos`.
pub unlock : LightSwitch → ℕ → At → Option (LightSwitch × ℕ × Place)
unlock s semaphore enter = do
  m ← sem_wait s.mutex
  some (record s { mutex = m }, semaphore, unlocking count)
unlock s semaphore count =
    let s' = record s { counter = s.counter - 1 } in
    if s'.counter == 0
    then some (s', semaphore, unlocking light)
    else some (s', semaphore, unlocking leave)
unlock s semaphore light = some (s, sem_post semaphore, unlocking leave)
unlock s semaphore leave = some (record s { mutex = sem_post s.mutex }, semaphore, out)

-- A thread's next step inside a call on the switch.
unfoldable pub call : LightSwitch → ℕ → Place → Option (LightSwitch × ℕ × Place)
unfolding lock unlock
call s semaphore (locking a) = lock s semaphore a
call s semaphore (unlocking a) = unlock s semaphore a
call s semaphore out = none
call s semaphore inside = none
