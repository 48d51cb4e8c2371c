-- ===== src/RwLock/WriterPriority.antt =====
-- threads-sema/rwlock-writer-priority.cpp: two light switches, so that readers queue on `noReaders`
-- while any writer is about, and writers queue on `noWriters`.
pub mod Tally
mod Calls
mod Moves
mod Fresh
pub mod Inv
pub mod Safety
pub mod Progress
pub mod Ends
mod Tests
use ostep_code.Prelude.{
  ℕ, ◌+◌, ◌-◌, Bool, true, false, Option, none, some, ◌>>=◌, ◌==◌, if◌then◌else◌,
}
use ostep_code.Sema.{sem_wait, sem_post}
use ostep_code.Threads.{System}
use ostep_code.RwLock.LightSwitch.{
  LightSwitch, init_switch, Place, out, inside, locking, unlocking, enter, leave, call,
}

-- `rwlock_t mutex` and the global `counter`.
pub record Memory : Type 0 where
  pub no_readers : ℕ
  pub no_writers : ℕ
  pub reader_switch : LightSwitch
  pub writer_switch : LightSwitch
  pub counter : ℕ

-- The globals before `main`, and `rwlock_init`.
abbrev pub rwlock_init : Memory
rwlock_init = record {
  no_readers = 1;
  no_writers = 1;
  reader_switch = init_switch;
  writer_switch = init_switch;
  counter = 0;
}

-- A writer in the room: before the load and the store of `counter++`, before
-- `sem_post(&lock->noWriters)`.
pub data RoomAt : Type 0 where
  load release : RoomAt
  store : (loaded : ℕ) → RoomAt

-- A thread with the rounds of its loop that are left, and for a reader the value of `local`.
-- `gate` is a reader that has locked the switch, before `sem_post(&lock->noReaders)`. A writer
-- `inside` its switch is before `sem_wait(&lock->noWriters)`.
pub data Thread : Type 0 where
  reader : (left local : ℕ) → Place → Thread
  gate : (left local : ℕ) → Thread
  writer : (left : ℕ) → Place → Thread
  room : (left : ℕ) → RoomAt → Thread

-- Where `rwlock_acquire_readlock` goes on after a step in `reader_switch.lock`.
abbrev pub arrive : ℕ → ℕ → Place → Thread
arrive left local inside = gate left local
arrive left local p = reader left local p

-- A step in a call on `reader_switch` with `noWriters`.
pub reader_call : Memory → Place → Option (Memory × Place)
reader_call m p = do
  (s, v, q) ← call m.reader_switch m.no_writers p
  some (record m { reader_switch = s; no_writers = v }, q)

-- A step in a call on `writer_switch` with `noReaders`.
pub writer_call : Memory → Place → Option (Memory × Place)
writer_call m p = do
  (s, v, q) ← call m.writer_switch m.no_readers p
  some (record m { writer_switch = s; no_readers = v }, q)

-- One step of `reader`; the last step of a round is `i++`.
pub reader_step : Memory → ℕ → ℕ → Place → Option (Memory × Thread)
unfolding reader_call
reader_step m left local out = if left == 0 then none else do
  v ← sem_wait m.no_readers
  some (record m { no_readers = v }, reader left local (locking enter))
reader_step m left local inside = some (m, reader left m.counter (unlocking enter))
reader_step m left local (locking a) = do
  (m', q) ← reader_call m (locking a)
  some (m', arrive left local q)
reader_step m left local (unlocking leave) = do
  (m', q) ← reader_call m (unlocking leave)
  some (m', reader (left - 1) local q)
reader_step m left local (unlocking a) = do
  (m', q) ← reader_call m (unlocking a)
  some (m', reader left local q)

-- One step of `writer` outside the room; the last step of a round is `i++`.
pub writer_step : Memory → ℕ → Place → Option (Memory × Thread)
unfolding writer_call
writer_step m left out = if left == 0 then none else some (m, writer left (locking enter))
writer_step m left inside = do
  v ← sem_wait m.no_writers
  some (record m { no_writers = v }, room left load)
writer_step m left (locking a) = do (m', q) ← writer_call m (locking a); some (m', writer left q)
writer_step m left (unlocking leave) = do
  (m', q) ← writer_call m (unlocking leave)
  some (m', writer (left - 1) q)
writer_step m left (unlocking a) = do
  (m', q) ← writer_call m (unlocking a)
  some (m', writer left q)

-- One step of `writer` in the room.
pub room_step : Memory → ℕ → RoomAt → Memory × Thread
room_step m left load = (m, room left (store m.counter))
room_step m left (store loaded) = (record m { counter = loaded + 1 }, room left release)
room_step m left release =
    (record m { no_writers = sem_post m.no_writers }, writer left (unlocking enter))

unfoldable pub step : Memory → Thread → Option (Memory × Thread)
unfolding reader_step writer_step room_step
step m (reader left local p) = reader_step m left local p
step m (gate left local) =
    some (record m { no_readers = sem_post m.no_readers }, reader left local inside)
step m (writer left p) = writer_step m left p
step m (room left a) = some (room_step m left a)

-- What a thread is created for: `reader` with `read_loops`, or `writer` with `write_loops`.
pub data Role : Type 0 where
  reads writes : (loops : ℕ) → Role

abbrev pub create : Role → Thread
create (reads loops) = reader loops 0 out
create (writes loops) = writer loops out

abbrev pub init : (ℕ → Role) → System Memory Thread
init roles = record { mem = rwlock_init; pc = λ i. create (roles i) }

-- `main` creates one reader and one writer.
abbrev pub main_roles : ℕ → ℕ → ℕ → Role
main_roles read_loops write_loops i = if i == 0 then reads read_loops else writes write_loops

-- A thread that has left its loop.
abbrev pub finished : Thread → Bool
finished (reader left _ out) = left == 0
finished (writer left out) = left == 0
finished _ = false

-- In the critical section of the writer, or of the reader.
abbrev pub writing : Thread → Bool
writing (room _ load) = true
writing (room _ (store _)) = true
writing _ = false

abbrev pub reading : Thread → Bool
reading (reader _ _ inside) = true
reading _ = false
