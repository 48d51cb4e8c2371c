-- ===== src/RwLock/WriterPriority/Moves.antt =====
-- A step of one thread of rwlock-writer-priority.cpp keeps the counts of the invariant.
use ostep_code.Prelude.{ℕ, ◌+◌, ◌-◌, ◌≤◌, ◌<◌, ◌≡◌, inl, inr, some, ap, subst, arith, ◌∙◌}
use ostep_code.Threads.{goes, total, total-goes, le-total}
use ostep_code.RwLock.LightSwitch.{LightSwitch, Place, out, inside, locking, unlocking, leave, call}
use ostep_code.RwLock.LightSwitch.Inv as Switch
use ostep_code.RwLock.LightSwitch.Inv.{Tally, Moves, call-Inv, call_cases, stay-Inv, others-le_one}
use ostep_code.RwLock.LightSwitch.Count.{tally, tally-goes}
use ostep_code.RwLock.WriterPriority.{
  Memory, load, store, release, Thread, reader, gate, writer, room, arrive, step,
}
use ostep_code.RwLock.WriterPriority.Tally.{
  reader_place, writer_place, holding, arriving, pending, IsFresh, Inv,
}
use ostep_code.RwLock.WriterPriority.Calls.{
  reader_place-arrive, arriving-call, pending-call, unlocking-call,
}

module _ {n writes : ℕ} {m : Memory} {pc : ℕ → Thread} (inv : Inv n writes m pc) (i : ℕ) where
  -- Thread `i` goes from `p` to `q`.
  pub record Mover (p q : Thread) : Type 0 where
    own : IsFresh m p
    r_moves :
        Moves
          (reader_place p)
          (reader_place q)
          (tally reader_place n pc)
          (tally reader_place n (goes pc i q))
    w_moves :
        Moves
          (writer_place p)
          (writer_place q)
          (tally writer_place n pc)
          (tally writer_place n (goes pc i q))
    holds : total holding n (goes pc i q) + holding p ≡ total holding n pc + holding q
    held : holding p ≤ total holding n pc
    arrives : total arriving n (goes pc i q) + arriving p ≡ total arriving n pc + arriving q
    arrived : arriving p ≤ total arriving n pc
    pends : total pending n (goes pc i q) + pending p ≡ total pending n pc + pending q
    pend : pending p ≤ total pending n pc

  pub mover : i < n → (q : Thread) → Mover (pc i) q
  mover lt q = record {
    own = inv.fresh i lt;
    r_moves = tally-goes reader_place n pc i q lt;
    w_moves = tally-goes writer_place n pc i q lt;
    holds = total-goes holding n pc i q lt;
    held = le-total holding n pc i lt;
    arrives = total-goes arriving n pc i q lt;
    arrived = le-total arriving n pc i lt;
    pends = total-goes pending n pc i q lt;
    pend = le-total pending n pc i lt;
  }

  -- What the move does to the two switches and to the writes.
  abbrev pub After : Thread → Memory → Type 0
  After q m' =
      Switch.Inv m'.reader_switch m'.no_writers (total holding n (goes pc i q))
        (tally reader_place n (goes pc i q))
      × Switch.Inv m'.writer_switch m'.no_readers (total arriving n (goes pc i q))
          (tally writer_place n (goes pc i q))
      × (m'.counter + total pending n (goes pc i q) ≡ writes)

  -- A step in a call on `reader_switch`.
  reader_call-After :
      (p q : Thread) (x : Place) {m' : Memory} {s : LightSwitch} {v : ℕ}
      → Mover p q
      → call m.reader_switch m.no_writers (reader_place p) ≡ some (s, v, x)
      → reader_place q ≡ x
      → writer_place q ≡ writer_place p
      → holding q ≡ holding p
      → arriving q ≡ arriving p
      → pending q ≡ pending p
      → m' ≡ record m { reader_switch = s; no_writers = v }
      → After q m'
  reader_call-After p q x {m'} {s} {v} mv e place stays h a w em = rw em (
    rw same_holding (call-Inv (reader_place p) x r_there inv.readers_in e),
    stay-Inv (writer_place p) w_there (omega arith) inv.writers_in,
    omega (arith, inv.written),
  )
    where
      open mv use {r_moves, w_moves, holds, arrives, pends}

      same_holding : total holding n (goes pc i q) ≡ total holding n pc
      same_holding = omega arith

      r_there :
          Moves (reader_place p) x (tally reader_place n pc) (tally reader_place n (goes pc i q))
      r_there =
          subst
            (λ z.
              Moves (reader_place p) z (tally reader_place n pc)
                (tally reader_place n (goes pc i q)))
            place r_moves

      w_there :
          Moves
            (writer_place p)
            (writer_place p)
            (tally writer_place n pc)
            (tally writer_place n (goes pc i q))
      w_there =
          subst
            (λ z.
              Moves (writer_place p) z (tally writer_place n pc)
                (tally writer_place n (goes pc i q)))
            stays w_moves

  -- A step in a call on `writer_switch`.
  writer_call-After :
      (p q : Thread) (x : Place) {m' : Memory} {s : LightSwitch} {v : ℕ}
      → Mover p q
      → call m.writer_switch m.no_readers (writer_place p) ≡ some (s, v, x)
      → writer_place q ≡ x
      → reader_place q ≡ reader_place p
      → holding q ≡ holding p
      → arriving q ≡ arriving p
      → pending q ≡ pending p
      → m' ≡ record m { writer_switch = s; no_readers = v }
      → After q m'
  writer_call-After p q x {m'} {s} {v} mv e place stays h a w em = rw em (
    stay-Inv (reader_place p) r_there (omega arith) inv.readers_in,
    rw same_arriving (call-Inv (writer_place p) x w_there inv.writers_in e),
    omega (arith, inv.written),
  )
    where
      open mv use {r_moves, w_moves, holds, arrives, pends}

      same_arriving : total arriving n (goes pc i q) ≡ total arriving n pc
      same_arriving = omega arith

      w_there :
          Moves (writer_place p) x (tally writer_place n pc) (tally writer_place n (goes pc i q))
      w_there =
          subst
            (λ z.
              Moves (writer_place p) z (tally writer_place n pc)
                (tally writer_place n (goes pc i q)))
            place w_moves

      r_there :
          Moves
            (reader_place p)
            (reader_place p)
            (tally reader_place n pc)
            (tally reader_place n (goes pc i q))
      r_there =
          subst
            (λ z.
              Moves (reader_place p) z (tally reader_place n pc)
                (tally reader_place n (goes pc i q)))
            stays r_moves

  pub step-After : (p q : Thread) {m' : Memory} → Mover p q → step m p ≡ some (m', q) → After q m'
  unfolding step
  step-After (reader left v out) q mv e =
      ground (arith, inv.readers_in, inv.writers_in, inv.written)
  step-After (reader left v inside) q mv e =
      ground (arith, inv.readers_in, inv.writers_in, inv.written)
  step-After (gate left v) q mv e = ground (arith, inv.readers_in, inv.writers_in, inv.written)
  step-After (writer left out) q mv e = ground (arith, inv.readers_in, inv.writers_in, inv.written)
  step-After (writer left inside) q mv e =
      ground (arith, inv.readers_in, inv.writers_in, inv.written)
  step-After (room left load) q mv e = ground (arith, inv.readers_in, inv.writers_in, inv.written)
  step-After (room left (store w)) q mv e =
      ground (arith, inv.readers_in, inv.writers_in, inv.written)
  step-After (room left release) q mv e =
      ground (arith, inv.readers_in, inv.writers_in, inv.written)
  step-After (reader left v (locking a)) q {m'} mv e =
      elim (call_cases (call m.reader_switch m.no_writers (locking a))) [
        | inl h ↦ let e' = rw h at e in cc
        | inr (s, r, x, h) ↦
            let e' = rw h at e in
            let eq : q ≡ arrive left v x = cc in
            let (a1, w1, h1, p1) = arriving-call m.reader_switch s m.no_writers r left v a x h in
            reader_call-After (reader left v (locking a)) q x {m' = m'} mv h
              (ap reader_place eq ∙ reader_place-arrive left v x) (ap writer_place eq ∙ w1)
              (ap holding eq ∙ h1) (ap arriving eq ∙ a1) (ap pending eq ∙ p1) (cc)
      ]
  step-After (reader left v (unlocking leave)) q {m'} mv e =
      elim (call_cases (call m.reader_switch m.no_writers (unlocking leave))) [
        | inl h ↦ let e' = rw h at e in cc
        | inr (s, r, x, h) ↦
            let e' = rw h at e in
            let eq : q ≡ reader (left - 1) v x = cc in
            let (a1, p1) = unlocking-call m.reader_switch s m.no_writers r (left - 1) v leave x h in
            reader_call-After (reader left v (unlocking leave)) q x {m' = m'} mv h
              (ap reader_place eq) (ap writer_place eq) (ap holding eq) (ap arriving eq ∙ a1)
              (ap pending eq) (cc)
      ]
  step-After (reader left v (unlocking a)) q {m'} mv e =
      elim (call_cases (call m.reader_switch m.no_writers (unlocking a))) [
        | inl h ↦ let e' = rw h at e in cc
        | inr (s, r, x, h) ↦
            let e' = rw h at e in
            let eq : q ≡ reader left v x = cc in
            let (a1, p1) = unlocking-call m.reader_switch s m.no_writers r left v a x h in
            reader_call-After (reader left v (unlocking a)) q x {m' = m'} mv h (ap reader_place eq)
              (ap writer_place eq) (ap holding eq) (ap arriving eq ∙ a1) (ap pending eq) (cc)
      ]
  step-After (writer left (locking a)) q {m'} mv e =
      elim (call_cases (call m.writer_switch m.no_readers (locking a))) [
        | inl h ↦ let e' = rw h at e in cc
        | inr (s, r, x, h) ↦
            let e' = rw h at e in
            let eq : q ≡ writer left x = cc in
            writer_call-After (writer left (locking a)) q x {m' = m'} mv h (ap writer_place eq)
              (ap reader_place eq) (ap holding eq) (ap arriving eq)
              (ap pending eq ∙ pending-call m.writer_switch s m.no_readers r left a x h) (cc)
      ]
  step-After (writer left (unlocking leave)) q {m'} mv e =
      elim (call_cases (call m.writer_switch m.no_readers (unlocking leave))) [
        | inl h ↦ let e' = rw h at e in cc
        | inr (s, r, x, h) ↦
            let e' = rw h at e in
            let eq : q ≡ writer (left - 1) x = cc in
            let (a1, p1) = unlocking-call m.writer_switch s m.no_readers r left 0 leave x h in
            writer_call-After (writer left (unlocking leave)) q x {m' = m'} mv h
              (ap writer_place eq) (ap reader_place eq) (ap holding eq) (ap arriving eq)
              (ap pending eq ∙ p1) (cc)
      ]
  step-After (writer left (unlocking a)) q {m'} mv e =
      elim (call_cases (call m.writer_switch m.no_readers (unlocking a))) [
        | inl h ↦ let e' = rw h at e in cc
        | inr (s, r, x, h) ↦
            let e' = rw h at e in
            let eq : q ≡ writer left x = cc in
            let (a1, p1) = unlocking-call m.writer_switch s m.no_readers r left 0 a x h in
            writer_call-After (writer left (unlocking a)) q x {m' = m'} mv h (ap writer_place eq)
              (ap reader_place eq) (ap holding eq) (ap arriving eq) (ap pending eq ∙ p1) (cc)
      ]
