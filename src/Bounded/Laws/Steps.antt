-- ===== src/Bounded/Laws/Steps.antt =====
-- What each step keeps: where the sleepers are, and where the markers are.
use ostep_code.Prelude.{
  ℕ, zero, suc, ◌+◌, ◌-◌, ◌≤◌, ◌≡◌, ◌⊎◌, refl, some, arith, ite, dec_lt, ℤ, pos, negsuc, List, [],
  ◌∷◌, length, length_snoc,
}
use ostep_code.Threads.Sums.{Shift}
use ostep_code.Bounded.{
  Memory, Point, produce, test_full, full_wait, mark, test_mark, mark_wait, produced, consume,
  test_empty, empty_wait, consumed, marker, step,
}
use ostep_code.Bounded.Queue.{queue, markers, is_marker, markers_snoc, markers_cons}

-- Consumers that will test the buffer again, that sleep, and that have read a marker.
abbrev pub awake : Point → ℕ
awake (consume v) = 1 - is_marker v
awake test_empty = 1
awake _ = 0

abbrev pub asleep : Point → ℕ
asleep empty_wait = 1
asleep _ = 0

abbrev pub finished : Point → ℕ
finished (consume v) = is_marker v
finished consumed = 1
finished _ = 0

-- A producer that sleeps, and one that does not.
abbrev pub waiting : Point → ℕ
waiting (full_wait i) = 1
waiting (mark_wait j) = 1
waiting _ = 0

abbrev pub working : Point → ℕ
working (produce i) = 1
working (test_full i) = 1
working (mark j) = 1
working (test_mark j) = 1
working produced = 1
working _ = 0

module _ (consumers : ℕ) where
  -- The markers that are still to be put.
  abbrev pub to_mark : Point → ℕ
  to_mark (produce i) = consumers
  to_mark (test_full i) = consumers
  to_mark (full_wait i) = consumers
  to_mark (mark j) = consumers - j
  to_mark (test_mark j) = consumers - j
  to_mark (mark_wait j) = consumers - j
  to_mark _ = 0

  -- Rounds of the second loop past its end.
  abbrev pub astray : Point → ℕ
  astray (mark j) = ite (dec_lt consumers j) 1 0
  astray (test_mark j) = ite (dec_lt j consumers) 0 1
  astray (mark_wait j) = ite (dec_lt j consumers) 0 1
  astray _ = 0

  pub data Sum : Type 0 where
    of_awake of_asleep of_finished of_waiting of_working of_to_mark of_astray : Sum

  abbrev pub weights : Sum → Point → ℕ
  weights of_awake = awake
  weights of_asleep = asleep
  weights of_finished = finished
  weights of_waiting = waiting
  weights of_working = working
  weights of_to_mark = to_mark
  weights of_astray = astray

  pub record Inv (max : ℕ) (m : Memory (List ℤ)) (t : Sum → ℕ) : Type 0 where
    pub sleepers : m.fill.sleeping + m.fill.woken ≡ t of_asleep
    pub waiters : m.empty.sleeping + m.empty.woken ≡ t of_waiting
    pub one_producer : t of_waiting + t of_working ≡ 1
    pub all_consumers : t of_awake + t of_asleep + t of_finished ≡ consumers
    pub all_marks : markers m.slots + t of_finished + t of_to_mark ≡ consumers
    pub none_astray : t of_astray ≡ 0
    pub no_lost : (m.fill.sleeping ≡ 0) ⊎ (length m.slots ≤ m.fill.woken + t of_awake)
    pub full : (m.empty.sleeping ≡ 0) ⊎ (length m.slots ≡ max)
    pub bounded : length m.slots ≤ max

  pub record Moved (p q : Point) (t t' : Sum → ℕ) : Type 0 where
    pub part_awake : awake p ≤ t of_awake
    pub part_asleep : asleep p ≤ t of_asleep
    pub part_waiting : waiting p ≤ t of_waiting
    pub part_working : working p ≤ t of_working
    pub part_to_mark : to_mark p ≤ t of_to_mark
    pub part_astray : astray p ≤ t of_astray
    pub new_awake : t' of_awake + awake p ≡ t of_awake + awake q
    pub new_asleep : t' of_asleep + asleep p ≡ t of_asleep + asleep q
    pub new_finished : t' of_finished + finished p ≡ t of_finished + finished q
    pub new_waiting : t' of_waiting + waiting p ≡ t of_waiting + waiting q
    pub new_working : t' of_working + working p ≡ t of_working + working q
    pub new_to_mark : t' of_to_mark + to_mark p ≡ t of_to_mark + to_mark q
    pub new_astray : t' of_astray + astray p ≡ t of_astray + astray q

  pub moved :
      (max loops : ℕ) {n : ℕ} (p q : Point) (t t' : Sum → ℕ)
      → Shift (step queue max loops consumers) n weights p q t t'
      → Moved p q t t'
  moved max loops p q t t' h = record {
    part_awake = h.part of_awake;
    part_asleep = h.part of_asleep;
    part_waiting = h.part of_waiting;
    part_working = h.part of_working;
    part_to_mark = h.part of_to_mark;
    part_astray = h.part of_astray;
    new_awake = h.change of_awake;
    new_asleep = h.change of_asleep;
    new_finished = h.change of_finished;
    new_waiting = h.change of_waiting;
    new_working = h.change of_working;
    new_to_mark = h.change of_to_mark;
    new_astray = h.change of_astray;
  }

  module _ (max loops : ℕ) (m m' : Memory (List ℤ)) (t t' : Sum → ℕ) where
    abbrev Keeps : Point → Point → Type 0
    Keeps p q =
        step queue max loops consumers m p ≡ some (m', q)
        → Moved p q t t'
        → Inv max m t
        → Inv max m' t'

    keep_consume : (v : ℤ) (q : Point) → Keeps (consume v) q
    unfolding step
    keep_consume (pos n) q e h j = ground arith
    keep_consume (negsuc zero) q e h j = ground arith
    keep_consume (negsuc (suc n)) q e h j = ground arith

    keep_empty : (xs : List ℤ) → m.slots ≡ xs → (q : Point) → Keeps test_empty q
    unfolding step
    keep_empty [] s q e h j = ground (arith, s)
    keep_empty (x ∷ xs) s q e h j = ground (arith, s, markers_cons x xs)

    pub keep : (p q : Point) → Keeps p q
    unfolding step
    keep (produce i) q e h j = ground arith
    keep (test_full i) q e h j =
        ground (arith, length_snoc m.slots (pos i), markers_snoc m.slots (pos i))
    keep (full_wait i) q e h j = ground arith
    keep (mark i) q e h j = ground arith
    keep (test_mark i) q e h j =
        ground (arith, length_snoc m.slots marker, markers_snoc m.slots marker)
    keep (mark_wait i) q e h j = ground arith
    keep produced q e h j = ground arith
    keep (consume v) q e h j = keep_consume v q e h j
    keep test_empty q e h j = keep_empty m.slots refl q e h j
    keep empty_wait q e h j = ground arith
    keep consumed q e h j = ground arith
