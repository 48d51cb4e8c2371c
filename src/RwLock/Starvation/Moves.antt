-- ===== src/RwLock/Starvation/Moves.antt =====
-- A step of one thread of rwlock_writer_starvation.cpp keeps each part of the invariant.
use ostep_code.Prelude.{
  ℕ, ◌+◌, ◌-◌, ◌≤◌, ◌<◌, ◌≡◌, refl, ◌⊎◌, inl, inr, ◌≢◌, some, ap, subst, arith, ℕ_discrete,
}
use mathlib.Core.Logic.{if_pos, if_neg}
use ostep_code.Threads.{goes, total, total-goes, le-total, two-le-total}
use ostep_code.RwLock.LightSwitch.{LightSwitch, Place, out, inside, locking, unlocking, leave, call}
use ostep_code.RwLock.LightSwitch.Inv as Switch
use ostep_code.RwLock.LightSwitch.Inv.{
  Tally, Moves, quiet, at_wait, at_post, counted, call-Inv, call_cases, others-le_one,
}
use ostep_code.RwLock.LightSwitch.Count.{tally, tally-goes}
use ostep_code.RwLock.Starvation.{Memory, idle, load, store, release, Thread, reader, writer, step}
use ostep_code.RwLock.Starvation.Tally.{place, holding, pending, IsFresh, Inv}

module _ {n writes : ℕ} {m : Memory} {pc : ℕ → Thread} (inv : Inv n writes m pc) (i : ℕ) where
  -- Thread `i` goes from `p` to `q`.
  record Mover (p q : Thread) : Type 0 where
    own : IsFresh m p
    moves : Moves (place p) (place q) (tally place n pc) (tally place n (goes pc i q))
    holds : total holding n (goes pc i q) + holding p ≡ total holding n pc + holding q
    held : holding p ≤ total holding n pc
    pends : total pending n (goes pc i q) + pending p ≡ total pending n pc + pending q

  mover : i < n → (q : Thread) → Mover (pc i) q
  mover lt q = record {
    own = inv.fresh i lt;
    moves = tally-goes place n pc i q lt;
    holds = total-goes holding n pc i q lt;
    held = le-total holding n pc i lt;
    pends = total-goes pending n pc i q lt;
  }

  -- What the move does to the switch, the room and the writes.
  abbrev After : Thread → Memory → Type 0
  After q m' =
      Switch.Inv m'.read_light_switch m'.room_empty (total holding n (goes pc i q))
        (tally place n (goes pc i q))
      × (m'.counter + total pending n (goes pc i q) ≡ writes)

  -- A step in a call on the switch, whatever becomes of the rounds left.
  call-After :
      (p q : Thread) (x : Place) (left v : ℕ) {m' : Memory} {s : LightSwitch} {r : ℕ}
      → Mover p q
      → holding p ≡ 0
      → pending p ≡ 0
      → call m.read_light_switch m.room_empty (place p) ≡ some (s, r, x)
      → m' ≡ record m { read_light_switch = s; room_empty = r }
      → q ≡ reader left v x
      → After q m'
  call-After p q x left v {m'} {s} {r} mv h0 p0 e em eq =
      ground (arith, inv.written, call-Inv {s' = s} {semaphore' = r} (place p) x there inv.switch e)
    where
      there : Moves (place p) x (tally place n pc) (tally place n (goes pc i q))
      there =
          subst (λ z. Moves (place p) z (tally place n pc) (tally place n (goes pc i q)))
            (ap place eq) mv.moves

  step-After : (p q : Thread) {m' : Memory} → Mover p q → step m p ≡ some (m', q) → After q m'
  unfolding step
  step-After (reader left v out) q mv e = ground (arith, inv.switch, inv.written)
  step-After (reader left v inside) q mv e = ground (arith, inv.switch, inv.written)
  step-After (reader left v (locking a)) q {m'} mv e =
      elim (call_cases (call m.read_light_switch m.room_empty (locking a))) [
        | inl h ↦ let e' = rw h at e in cc
        | inr (s, r, x, h) ↦
            let e' = rw h at e in
            call-After (reader left v (locking a)) q x left v {m' = m'} mv refl refl h (cc) (cc)
      ]
  step-After (reader left v (unlocking leave)) q {m'} mv e =
      elim (call_cases (call m.read_light_switch m.room_empty (unlocking leave))) [
        | inl h ↦ let e' = rw h at e in cc
        | inr (s, r, x, h) ↦
            let e' = rw h at e in
            call-After (reader left v (unlocking leave)) q x (left - 1) v {m' = m'} mv refl refl h
              (cc) (cc)
      ]
  step-After (reader left v (unlocking a)) q {m'} mv e =
      elim (call_cases (call m.read_light_switch m.room_empty (unlocking a))) [
        | inl h ↦ let e' = rw h at e in cc
        | inr (s, r, x, h) ↦
            let e' = rw h at e in
            call-After (reader left v (unlocking a)) q x left v {m' = m'} mv refl refl h (cc) (cc)
      ]
  step-After (writer left idle) q mv e = ground (arith, inv.switch, inv.written)
  step-After (writer left load) q mv e = ground (arith, inv.switch, inv.written)
  step-After (writer left (store loaded)) q mv e = ground (arith, inv.switch, inv.written)
  step-After (writer left release) q mv e = ground (arith, inv.switch, inv.written)

  step-own : (p q : Thread) {m' : Memory} → IsFresh m p → step m p ≡ some (m', q) → IsFresh m' q
  unfolding step
  step-own (reader left v out) q own e = ground arith
  step-own (reader left v inside) q own e = ground arith
  step-own (reader left v (locking a)) q own e = ground arith
  step-own (reader left v (unlocking leave)) q own e = ground arith
  step-own (reader left v (unlocking a)) q own e = ground arith
  step-own (writer left idle) q own e = ground arith
  step-own (writer left load) q own e = ground arith
  step-own (writer left (store loaded)) q own e = ground arith
  step-own (writer left release) q own e = ground arith

  -- Only a writer that holds the room changes `counter`.
  step-counter :
      (p q : Thread) {m' : Memory}
      → step m p ≡ some (m', q)
      → (m'.counter ≡ m.counter) ⊎ (holding p ≡ 1)
  unfolding step
  step-counter (reader left v out) q e = ground arith
  step-counter (reader left v inside) q e = ground arith
  step-counter (reader left v (locking a)) q e = ground arith
  step-counter (reader left v (unlocking leave)) q e = ground arith
  step-counter (reader left v (unlocking a)) q e = ground arith
  step-counter (writer left idle) q e = ground arith
  step-counter (writer left load) q e = inr refl
  step-counter (writer left (store loaded)) q e = inr refl
  step-counter (writer left release) q e = inr refl

  IsFresh-keep :
      (p : Thread) (m' : Memory)
      → (m'.counter ≡ m.counter) ⊎ (holding p ≡ 0)
      → IsFresh m p
      → IsFresh m' p
  IsFresh-keep (reader left v x) m' h own = tt
  IsFresh-keep (writer left idle) m' h own = tt
  IsFresh-keep (writer left load) m' h own = own
  IsFresh-keep (writer left (store loaded)) m' h own = ground arith
  IsFresh-keep (writer left release) m' h own = own

  -- Two threads never hold the room.
  holding-alone : (j : ℕ) → i < n → j < n → i ≢ j → holding (pc i) ≡ 1 → holding (pc j) ≡ 0
  holding-alone j lt ltj ne h =
      omega (arith, two-le-total holding n pc i j lt ltj ne, others-le_one inv.switch)

  step-fresh :
      (q : Thread) {m' : Memory}
      → i < n
      → step m (pc i) ≡ some (m', q)
      → (j : ℕ) → j < n
      → IsFresh m' (goes pc i q j)
  step-fresh q {m'} lt e j ltj = elim (ℕ_discrete i j) [
    | yes same ↦ rw (if_pos _ same) (step-own (pc i) q (inv.fresh i lt) e)
    | no other ↦ rw (if_neg _ other) (
        IsFresh-keep (pc j) m'
          (elim (step-counter (pc i) q e) [
            | inl same ↦ inl same
            | inr h ↦ inr (holding-alone j lt ltj other h)
          ])
          (inv.fresh j ltj))
  ]

  pub move-Inv :
      (q : Thread) {m' : Memory}
      → i < n
      → step m (pc i) ≡ some (m', q)
      → Inv n writes m' (goes pc i q)
  move-Inv q lt e = record {
    switch = (step-After (pc i) q (mover lt q) e).0;
    written = (step-After (pc i) q (mover lt q) e).1;
    fresh = step-fresh q lt e;
  }
