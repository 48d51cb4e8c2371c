-- ===== src/RwLock/Starvation.antt =====
-- threads-sema/rwlock_writer_starvation.cpp: a readers-writer lock of one light switch and one
-- semaphore, and the reader and writer threads that use it.
pub mod Tally
mod Moves
pub mod Inv
pub mod Safety
pub mod Progress
mod Tests
use ostep_code.Prelude.{
  ℕ, ◌+◌, ◌-◌, Bool, true, false, Option, none, some, ◌>>=◌, ◌==◌, if◌then◌else◌,
}
use ostep_code.Sema.{sem_wait, sem_post}
use ostep_code.Threads.{System}
use ostep_code.RwLock.LightSwitch.{
  LightSwitch, init_switch, Place, out, inside, locking, unlocking, enter, leave, call,
}

-- `rwlock_t mutex` and the global `counter`.
pub record Memory : Type 0 where
  pub read_light_switch : LightSwitch
  pub room_empty : ℕ
  pub readers : ℕ
  pub counter : ℕ

-- The globals before `main`, and `rwlock_init`.
abbrev pub rwlock_init : Memory
rwlock_init = record { read_light_switch = init_switch; room_empty = 1; readers = 0; counter = 0 }

-- Where a writer stands: before the loop test, before the load and the store of `counter++`, before
-- `rwlock_release_writelock`.
pub data WriterAt : Type 0 where
  idle load release : WriterAt
  store : (loaded : ℕ) → WriterAt

-- A thread with the rounds of its loop that are left, and for a reader the value of `local`.
pub data Thread : Type 0 where
  reader : (left local : ℕ) → Place → Thread
  writer : (left : ℕ) → WriterAt → Thread

-- A step in `rwlock_acquire_readlock` or `rwlock_release_readlock`.
pub readlock_call : Memory → Place → Option (Memory × Place)
readlock_call m p = do
  (s, room, q) ← call m.read_light_switch m.room_empty p
  some (record m { read_light_switch = s; room_empty = room }, q)

pub rwlock_acquire_writelock : Memory → Option Memory
rwlock_acquire_writelock m = do room ← sem_wait m.room_empty; some (record m { room_empty = room })

pub rwlock_release_writelock : Memory → Memory
rwlock_release_writelock m = record m { room_empty = sem_post m.room_empty }

-- One step of `reader`; the last step of a round is `i++`.
pub reader_step : Memory → ℕ → ℕ → Place → Option (Memory × Thread)
unfolding readlock_call
reader_step m left local out =
    if left == 0 then none else some (m, reader left local (locking enter))
reader_step m left local inside = some (m, reader left m.counter (unlocking enter))
reader_step m left local (locking a) = do
  (m', q) ← readlock_call m (locking a)
  some (m', reader left local q)
reader_step m left local (unlocking leave) = do
  (m', q) ← readlock_call m (unlocking leave)
  some (m', reader (left - 1) local q)
reader_step m left local (unlocking a) = do
  (m', q) ← readlock_call m (unlocking a)
  some (m', reader left local q)

-- One step of `writer`.
pub writer_step : Memory → ℕ → WriterAt → Option (Memory × Thread)
unfolding rwlock_acquire_writelock rwlock_release_writelock
writer_step m left idle =
    if left == 0 then none else do m' ← rwlock_acquire_writelock m; some (m', writer left load)
writer_step m left load = some (m, writer left (store m.counter))
writer_step m left (store loaded) = some (record m { counter = loaded + 1 }, writer left release)
writer_step m left release = some (rwlock_release_writelock m, writer (left - 1) idle)

unfoldable pub step : Memory → Thread → Option (Memory × Thread)
unfolding reader_step writer_step
step m (reader left local p) = reader_step m left local p
step m (writer left w) = writer_step m left w

-- What a thread is created for: `reader` with `read_loops`, or `writer` with `write_loops`.
pub data Role : Type 0 where
  reads writes : (loops : ℕ) → Role

abbrev pub create : Role → Thread
create (reads loops) = reader loops 0 out
create (writes loops) = writer loops idle

abbrev pub init : (ℕ → Role) → System Memory Thread
init roles = record { mem = rwlock_init; pc = λ i. create (roles i) }

-- `main` creates one reader and one writer.
abbrev pub main_roles : ℕ → ℕ → ℕ → Role
main_roles read_loops write_loops i = if i == 0 then reads read_loops else writes write_loops

-- A thread that has left its loop.
abbrev pub finished : Thread → Bool
finished (reader left _ out) = left == 0
finished (reader left _ _) = false
finished (writer left idle) = left == 0
finished (writer left _) = false

-- In the critical section of the writer, or of the reader.
abbrev pub writing : Thread → Bool
writing (writer _ load) = true
writing (writer _ (store _)) = true
writing _ = false

abbrev pub reading : Thread → Bool
reading (reader _ _ inside) = true
reading _ = false
