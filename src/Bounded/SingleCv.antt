-- ===== src/Bounded/SingleCv.antt =====
-- threads-cv/pc_single_cv.c: the same with one condition variable for producer and consumers.
use ostep_code.Prelude.{
  ℕ, ◌+◌, ◌≡◌, refl, Option, none, some, ◌>>=◌, ltb, ◌==◌, if◌then◌else◌, ℤ, pos, eq_ℤ, List, [],
  ◌∷◌, ℕ_discrete,
}
use ostep_code.Threads.{System, Reach, follow, follow-Reach}
use ostep_code.Cond.{Cond, cond_init, cond_wait, cond_wake, cond_signal}
use ostep_code.Bounded.{
  Point, produce, test_full, full_wait, mark, test_mark, mark_wait, produced, consume, test_empty,
  empty_wait, consumed, marker, points,
}
use ostep_code.Bounded.Ring.{Ring, empty_ring, do_fill, do_get}

pub record Memory : Type 0 where
  pub slots : Ring
  pub cv : Cond

module _ (max loops consumers : ℕ) where
  -- p2 to p6
  abbrev fill_section : Memory → ℤ → Point → Point → Memory × Point
  fill_section m value p q =
      if m.slots.num_full == max
      then (record m { cv = cond_wait m.cv }, p)
      else (record { slots = do_fill max m.slots value; cv = cond_signal m.cv }, q)

  -- c2 to c6
  abbrev get_section : Memory → Memory × Point
  get_section m =
      if m.slots.num_full == 0
      then (record m { cv = cond_wait m.cv }, empty_wait)
      else (let r = do_get max m.slots in
          (record { slots = r.0; cv = cond_signal m.cv }, consume r.1))

  -- A step of `producer` or `consumer`.
  unfoldable pub step_single : Memory → Point → Option (Memory × Point)
  step_single m (produce i) = some (m, if ltb i loops then test_full i else mark 0)
  step_single m (test_full i) = some (fill_section m (pos i) (full_wait i) (produce (i + 1)))
  step_single m (full_wait i) = do c ← cond_wake m.cv; some (record m { cv = c }, test_full i)
  step_single m (mark j) = some (m, if ltb j consumers then test_mark j else produced)
  step_single m (test_mark j) = some (fill_section m marker (mark_wait j) (mark (j + 1)))
  step_single m (mark_wait j) = do c ← cond_wake m.cv; some (record m { cv = c }, test_mark j)
  step_single m produced = none
  step_single m (consume tmp) = some (m, if eq_ℤ tmp marker then consumed else test_empty)
  step_single m test_empty = some (get_section m)
  step_single m empty_wait = do c ← cond_wake m.cv; some (record m { cv = c }, test_empty)
  step_single m consumed = none

-- `main`
abbrev pub init_single : System Memory Point
init_single = record { mem = record { slots = empty_ring; cv = cond_init }; pc = points }

-- One slot, one value, two consumers. Both consumers sleep; the producer puts the value, wakes the
-- first and sleeps before its marker; the first takes the value and wakes the second, who finds
-- nothing and sleeps again; the first sleeps.
abbrev schedule : List ℕ
schedule = 1 ∷ 1 ∷ 2 ∷ 2 ∷ 0 ∷ 0 ∷ 0 ∷ 0 ∷ 0 ∷ 1 ∷ 1 ∷ 2 ∷ 2 ∷ 1 ∷ 1 ∷ []

abbrev pub all_asleep : System Memory Point
all_asleep = follow (step_single 1 1 2) 3 schedule init_single

pub all_asleep_reached : Reach (step_single 1 1 2) 3 init_single all_asleep
all_asleep_reached = follow-Reach (step_single 1 1 2) 3 schedule init_single

-- All three threads sleep, and none has been woken.
pub all_asleep_stuck :
    (all_asleep.pc 0 ≡ mark_wait 0)
    × (all_asleep.pc 1 ≡ empty_wait)
    × (all_asleep.pc 2 ≡ empty_wait)
    × (all_asleep.mem.cv.woken ≡ 0)
unfolding follow step_single do_fill do_get ℕ_discrete
all_asleep_stuck = (refl, refl, refl, refl)
