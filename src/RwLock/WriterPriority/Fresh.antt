-- ===== src/RwLock/WriterPriority/Fresh.antt =====
-- What the threads of rwlock-writer-priority.cpp have loaded stays true, and so the invariant is kept.
use ostep_code.Prelude.{ℕ, ◌<◌, ◌≡◌, refl, ◌⊎◌, inl, inr, ◌≢◌, some, arith, ℕ_discrete}
use mathlib.Core.Logic.{if_pos, if_neg}
use ostep_code.Threads.{goes, two-le-total}
use ostep_code.RwLock.LightSwitch.{out, inside, locking, unlocking, leave, call}
use ostep_code.RwLock.LightSwitch.Inv.{others-le_one}
use ostep_code.RwLock.WriterPriority.{
  Memory, load, store, release, Thread, reader, gate, writer, room, step,
}
use ostep_code.RwLock.WriterPriority.Tally.{holding, IsFresh, Inv}
use ostep_code.RwLock.WriterPriority.Moves.{mover, step-After}

module _ {n writes : ℕ} {m : Memory} {pc : ℕ → Thread} (inv : Inv n writes m pc) (i : ℕ) where
  step-own : (p q : Thread) {m' : Memory} → IsFresh m p → step m p ≡ some (m', q) → IsFresh m' q
  unfolding step call
  step-own (reader left v out) q own e = ground arith
  step-own (reader left v inside) q own e = ground arith
  step-own (reader left v (locking a)) q own e = ground arith
  step-own (reader left v (unlocking leave)) q own e = ground arith
  step-own (reader left v (unlocking a)) q own e = ground arith
  step-own (gate left v) q own e = ground arith
  step-own (writer left out) q own e = ground arith
  step-own (writer left inside) q own e = ground arith
  step-own (writer left (locking a)) q own e = ground arith
  step-own (writer left (unlocking leave)) q own e = ground arith
  step-own (writer left (unlocking a)) q own e = ground arith
  step-own (room left load) q own e = ground arith
  step-own (room left (store w)) q own e = ground arith
  step-own (room left release) q own e = ground arith

  -- Only a writer in the room changes `counter`.
  step-counter :
      (p q : Thread) {m' : Memory}
      → step m p ≡ some (m', q)
      → (m'.counter ≡ m.counter) ⊎ (holding p ≡ 1)
  unfolding step
  step-counter (reader left v out) q e = ground arith
  step-counter (reader left v inside) q e = ground arith
  step-counter (reader left v (locking a)) q e = ground arith
  step-counter (reader left v (unlocking leave)) q e = ground arith
  step-counter (reader left v (unlocking a)) q e = ground arith
  step-counter (gate left v) q e = ground arith
  step-counter (writer left out) q e = ground arith
  step-counter (writer left inside) q e = ground arith
  step-counter (writer left (locking a)) q e = ground arith
  step-counter (writer left (unlocking leave)) q e = ground arith
  step-counter (writer left (unlocking a)) q e = ground arith
  step-counter (room left a) q e = inr refl

  IsFresh-keep :
      (p : Thread) (m' : Memory)
      → (m'.counter ≡ m.counter) ⊎ (holding p ≡ 0)
      → IsFresh m p
      → IsFresh m' p
  IsFresh-keep (room left load) m' h own = own
  IsFresh-keep (room left (store loaded)) m' h own = ground arith
  IsFresh-keep (room left release) m' h own = own
  IsFresh-keep (writer left (locking a)) m' h own = own
  IsFresh-keep (writer left inside) m' h own = own
  IsFresh-keep (writer left out) m' h own = own
  IsFresh-keep (writer left (unlocking a)) m' h own = own
  IsFresh-keep (reader left v x) m' h own = own
  IsFresh-keep (gate left v) m' h own = own

  -- Two threads never hold the room.
  holding-alone : (j : ℕ) → i < n → j < n → i ≢ j → holding (pc i) ≡ 1 → holding (pc j) ≡ 0
  holding-alone j lt ltj ne h =
      omega (arith, two-le-total holding n pc i j lt ltj ne, others-le_one inv.readers_in)

  step-fresh :
      (q : Thread) {m' : Memory}
      → i < n
      → step m (pc i) ≡ some (m', q)
      → (j : ℕ) → j < n
      → IsFresh m' (goes pc i q j)
  step-fresh q {m'} lt e j ltj = elim (ℕ_discrete i j) [
    | yes same ↦ rw (if_pos _ same) (step-own (pc i) q (inv.fresh i lt) e)
    | no other ↦ rw (if_neg _ other) (
        IsFresh-keep (pc j) m'
          (elim (step-counter (pc i) q e) [
            | inl same ↦ inl same
            | inr h ↦ inr (holding-alone j lt ltj other h)
          ])
          (inv.fresh j ltj))
  ]

  pub move-Inv :
      (q : Thread) {m' : Memory}
      → i < n
      → step m (pc i) ≡ some (m', q)
      → Inv n writes m' (goes pc i q)
  move-Inv q lt e = record {
    readers_in = (step-After inv i (pc i) q (mover inv i lt q) e).0;
    writers_in = (step-After inv i (pc i) q (mover inv i lt q) e).1;
    written = (step-After inv i (pc i) q (mover inv i lt q) e).2;
    fresh = step-fresh q lt e;
  }
