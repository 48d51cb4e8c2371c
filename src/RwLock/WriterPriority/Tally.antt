-- ===== src/RwLock/WriterPriority/Tally.antt =====
-- What is counted over the threads of rwlock-writer-priority.cpp, and the invariant of the lock.
use ostep_code.Prelude.{ℕ, ◌+◌, ◌-◌, ◌<◌, ◌≡◌}
use ostep_code.Threads.{total}
use ostep_code.RwLock.LightSwitch.{Place, out, inside, locking, unlocking}
use ostep_code.RwLock.LightSwitch.Inv as Switch
use ostep_code.RwLock.LightSwitch.Count.{tally}
use ostep_code.RwLock.WriterPriority.{
  Memory, load, store, release, Thread, reader, gate, writer, room,
}

-- Where a thread stands with regard to `reader_switch`, and to `writer_switch`.
abbrev pub reader_place : Thread → Place
reader_place (reader _ _ p) = p
reader_place (gate _ _) = inside
reader_place _ = out

abbrev pub writer_place : Thread → Place
writer_place (writer _ p) = p
writer_place (room _ _) = inside
writer_place _ = out

-- The reader holds the permit of `no_readers`; the writer holds the permit of `no_writers`.
abbrev pub arriving : Thread → ℕ
arriving (reader _ _ (locking _)) = 1
arriving (gate _ _) = 1
arriving _ = 0

abbrev pub holding : Thread → ℕ
holding (room _ _) = 1
holding _ = 0

-- The writes that a thread has yet to do.
abbrev pub pending : Thread → ℕ
pending (writer left (unlocking _)) = left - 1
pending (writer left _) = left
pending (room left release) = left - 1
pending (room left _) = left
pending _ = 0

-- What a writer's position says: rounds are left, and what it has loaded is still the value.
abbrev pub IsFresh : Memory → Thread → Type 0
IsFresh m (writer left (locking _)) = 0 < left
IsFresh m (writer left inside) = 0 < left
IsFresh m (room left load) = 0 < left
IsFresh m (room left (store loaded)) = (0 < left) × (loaded ≡ m.counter)
IsFresh m _ = Unit

pub record Inv (n writes : ℕ) (m : Memory) (pc : ℕ → Thread) : Type 0 where
  pub readers_in :
      Switch.Inv m.reader_switch m.no_writers (total holding n pc) (tally reader_place n pc)
  pub writers_in :
      Switch.Inv m.writer_switch m.no_readers (total arriving n pc) (tally writer_place n pc)
  pub written : m.counter + total pending n pc ≡ writes
  pub fresh : (i : ℕ) → i < n → IsFresh m (pc i)
