-- ===== src/RwLock/Turnstile/Tally.antt =====
-- What is counted over the threads of rwlock-1writerprogress.cpp, and the invariant of the lock.
use ostep_code.Prelude.{ℕ, ◌+◌, ◌-◌, ◌<◌, ◌≡◌}
use ostep_code.Threads.{total}
use ostep_code.RwLock.LightSwitch.{Place, out}
use ostep_code.RwLock.LightSwitch.Inv as Switch
use ostep_code.RwLock.LightSwitch.Count.{tally}
use ostep_code.RwLock.Turnstile.{
  Memory, queued, load, store, post_turnstile, post_room, Thread, passing, reader, writer,
}

abbrev pub place : Thread → Place
place (passing _ _) = out
place (reader _ _ p) = p
place (writer _ _) = out

-- The writer holds the permit of `room_empty`.
abbrev pub holding : Thread → ℕ
holding (writer _ load) = 1
holding (writer _ (store _)) = 1
holding (writer _ post_turnstile) = 1
holding (writer _ post_room) = 1
holding _ = 0

-- The thread holds the permit of `turnstile`.
abbrev pub gating : Thread → ℕ
gating (passing _ _) = 1
gating (writer _ queued) = 1
gating (writer _ load) = 1
gating (writer _ (store _)) = 1
gating (writer _ post_turnstile) = 1
gating _ = 0

-- The writes that a thread has yet to do.
abbrev pub pending : Thread → ℕ
pending (passing _ _) = 0
pending (writer left post_turnstile) = left - 1
pending (writer left post_room) = left - 1
pending (writer left _) = left
pending (reader _ _ _) = 0

-- What a writer's position says: rounds are left, and what it has loaded is still the value.
abbrev pub IsFresh : Memory → Thread → Type 0
IsFresh m (writer left queued) = 0 < left
IsFresh m (writer left load) = 0 < left
IsFresh m (writer left (store loaded)) = (0 < left) × (loaded ≡ m.counter)
IsFresh m (writer left post_turnstile) = 0 < left
IsFresh m (writer left post_room) = 0 < left
IsFresh m _ = Unit

pub record Inv (n writes : ℕ) (m : Memory) (pc : ℕ → Thread) : Type 0 where
  pub switch : Switch.Inv m.read_switch m.room_empty (total holding n pc) (tally place n pc)
  pub gated : m.turnstile + total gating n pc ≡ 1
  pub written : m.counter + total pending n pc ≡ writes
  pub fresh : (i : ℕ) → i < n → IsFresh m (pc i)
