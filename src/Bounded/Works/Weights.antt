-- ===== src/Bounded/Works/Weights.antt =====
-- The invariant: where the permits are, the values in the array, and the markers among them.
use ostep_code.Prelude.{ℕ, ◌+◌, ◌-◌, ◌≤◌, ◌≡◌, ite, dec_lt}
use ostep_code.Threads.Sums.{Shift}
use ostep_code.Bounded.Queue.{markers, is_marker}
use ostep_code.Bounded.Ring.{IsRing, values, counted}
use ostep_code.Bounded.Works.{
  Memory, Round, value_of, mark_of, Point, produce, wait_empty, lock_fill, filling, unlock_fill,
  post_full, consume, wait_full, lock_get, getting, unlock_get, post_empty, consumed, step_works,
}

-- The threads that hold `mutex`.
abbrev pub locked : Point → ℕ
locked (filling r) = 1
locked (unlock_fill r) = 1
locked getting = 1
locked (unlock_get v) = 1
locked _ = 0

-- Values put but not yet posted, values announced but not yet got, other permits on their way.
abbrev pub filled : Point → ℕ
filled (unlock_fill r) = 1
filled (post_full r) = 1
filled _ = 0

abbrev pub coming : Point → ℕ
coming lock_get = 1
coming getting = 1
coming _ = 0

abbrev pub other : Point → ℕ
other (lock_fill r) = 1
other (filling r) = 1
other (unlock_get v) = 1
other (post_empty v) = 1
other _ = 0

-- Consumers that have not read a marker, and those that have.
abbrev pub reading : Point → ℕ
reading (consume v) = 1 - is_marker v
reading wait_full = 1
reading lock_get = 1
reading getting = 1
reading (unlock_get v) = 1 - is_marker v
reading (post_empty v) = 1 - is_marker v
reading _ = 0

abbrev pub finished : Point → ℕ
finished (consume v) = is_marker v
finished (unlock_get v) = is_marker v
finished (post_empty v) = is_marker v
finished consumed = 1
finished _ = 0

pub data Sum : Type 0 where
  of_locked of_filled of_coming of_other of_reading of_finished of_to_mark of_astray : Sum

module _ (consumers : ℕ) where
  -- The markers still to be put, before and after this round's value.
  abbrev pub before_put : Round → ℕ
  before_put (value_of i) = consumers
  before_put (mark_of j) = consumers - j

  abbrev pub after_put : Round → ℕ
  after_put (value_of i) = consumers
  after_put (mark_of j) = consumers - (j + 1)

  abbrev pub to_mark : Point → ℕ
  to_mark (produce r) = before_put r
  to_mark (wait_empty r) = before_put r
  to_mark (lock_fill r) = before_put r
  to_mark (filling r) = before_put r
  to_mark (unlock_fill r) = after_put r
  to_mark (post_full r) = after_put r
  to_mark _ = 0

  -- Rounds of the second loop past its end.
  abbrev pub past_end : Round → ℕ
  past_end (value_of i) = 0
  past_end (mark_of j) = ite (dec_lt j consumers) 0 1

  abbrev pub far_past : Round → ℕ
  far_past (value_of i) = 0
  far_past (mark_of j) = ite (dec_lt consumers j) 1 0

  abbrev pub astray : Point → ℕ
  astray (produce r) = far_past r
  astray (wait_empty r) = past_end r
  astray (lock_fill r) = past_end r
  astray (filling r) = past_end r
  astray (unlock_fill r) = past_end r
  astray (post_full r) = past_end r
  astray _ = 0

  abbrev pub weights : Sum → Point → ℕ
  weights of_locked = locked
  weights of_filled = filled
  weights of_coming = coming
  weights of_other = other
  weights of_reading = reading
  weights of_finished = finished
  weights of_to_mark = to_mark
  weights of_astray = astray

  pub record Inv (max : ℕ) (m : Memory) (t : Sum → ℕ) : Type 0 where
    pub one_lock : m.mutex + t of_locked ≡ 1
    pub permits : m.empty + m.full + t of_filled + t of_coming + t of_other ≡ max
    pub number : ℕ
    pub slots : number ≡ m.full + t of_filled + t of_coming
    pub is_ring : IsRing max (counted max m.globals number)
    pub all_consumers : t of_reading + t of_finished ≡ consumers
    pub all_marks :
        markers (values max (counted max m.globals number)) + t of_finished + t of_to_mark
        ≡ consumers
    pub none_astray : t of_astray ≡ 0

  pub record Moved (p q : Point) (t t' : Sum → ℕ) : Type 0 where
    pub part_locked : locked p ≤ t of_locked
    pub part_filled : filled p ≤ t of_filled
    pub part_coming : coming p ≤ t of_coming
    pub part_other : other p ≤ t of_other
    pub part_reading : reading p ≤ t of_reading
    pub part_to_mark : to_mark p ≤ t of_to_mark
    pub part_astray : astray p ≤ t of_astray
    pub new_locked : t' of_locked + locked p ≡ t of_locked + locked q
    pub new_filled : t' of_filled + filled p ≡ t of_filled + filled q
    pub new_coming : t' of_coming + coming p ≡ t of_coming + coming q
    pub new_other : t' of_other + other p ≡ t of_other + other q
    pub new_reading : t' of_reading + reading p ≡ t of_reading + reading q
    pub new_finished : t' of_finished + finished p ≡ t of_finished + finished q
    pub new_to_mark : t' of_to_mark + to_mark p ≡ t of_to_mark + to_mark q
    pub new_astray : t' of_astray + astray p ≡ t of_astray + astray q

  pub moved :
      (max loops : ℕ) {n : ℕ} (p q : Point) (t t' : Sum → ℕ)
      → Shift (step_works max loops consumers) n weights p q t t'
      → Moved p q t t'
  moved max loops p q t t' h = record {
    part_locked = h.part of_locked;
    part_filled = h.part of_filled;
    part_coming = h.part of_coming;
    part_other = h.part of_other;
    part_reading = h.part of_reading;
    part_to_mark = h.part of_to_mark;
    part_astray = h.part of_astray;
    new_locked = h.change of_locked;
    new_filled = h.change of_filled;
    new_coming = h.change of_coming;
    new_other = h.change of_other;
    new_reading = h.change of_reading;
    new_finished = h.change of_finished;
    new_to_mark = h.change of_to_mark;
    new_astray = h.change of_astray;
  }
