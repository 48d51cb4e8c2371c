-- ===== src/RwLock/Starvation/Tally.antt =====
-- What is counted over the threads of rwlock_writer_starvation.cpp, and the invariant of the lock.
use ostep_code.Prelude.{ℕ, ◌+◌, ◌-◌, ◌<◌, ◌≡◌}
use ostep_code.Threads.{total}
use ostep_code.RwLock.LightSwitch.{Place, out}
use ostep_code.RwLock.LightSwitch.Inv as Switch
use ostep_code.RwLock.LightSwitch.Count.{tally}
use ostep_code.RwLock.Starvation.{Memory, load, store, release, Thread, reader, writer}

abbrev pub place : Thread → Place
place (reader _ _ p) = p
place (writer _ _) = out

-- The writer holds the permit of `room_empty`.
abbrev pub holding : Thread → ℕ
holding (writer _ load) = 1
holding (writer _ (store _)) = 1
holding (writer _ release) = 1
holding _ = 0

-- The writes that a thread has yet to do.
abbrev pub pending : Thread → ℕ
pending (writer left release) = left - 1
pending (writer left _) = left
pending (reader _ _ _) = 0

-- What a writer's position says: rounds are left, and what it has loaded is still the value.
abbrev pub IsFresh : Memory → Thread → Type 0
IsFresh m (writer left load) = 0 < left
IsFresh m (writer left (store loaded)) = (0 < left) × (loaded ≡ m.counter)
IsFresh m (writer left release) = 0 < left
IsFresh m _ = Unit

pub record Inv (n writes : ℕ) (m : Memory) (pc : ℕ → Thread) : Type 0 where
  pub switch : Switch.Inv m.read_light_switch m.room_empty (total holding n pc) (tally place n pc)
  pub written : m.counter + total pending n pc ≡ writes
  pub fresh : (i : ℕ) → i < n → IsFresh m (pc i)
