-- ===== src/Bounded.antt =====
-- threads-cv/pc.c: one producer and several consumers on a circular buffer of `max` slots, with a
-- lock and two condition variables.
pub mod Ring
pub mod Queue
pub mod Laws
mod Ends
pub mod Refine
pub mod SingleCv
pub mod Works
mod Tests
use ostep_code.Prelude.{
  ℕ, zero, suc, ◌+◌, ◌-◌, Option, none, some, ◌>>=◌, ltb, ◌==◌, if◌then◌else◌, ℤ, pos, negsuc, eq_ℤ,
}
use ostep_code.Threads.{System}
use ostep_code.Cond.{Cond, cond_init, cond_wait, cond_wake, cond_signal}

-- What the threads use of the buffer: `num_full`, `do_fill` and `do_get`.
pub record Ops {ℓ} (B : Type ℓ) : Type ℓ where
  pub num_full : B → ℕ
  pub do_fill : B → ℤ → B
  pub do_get : B → B × ℤ

pub record Memory {ℓ} (B : Type ℓ) : Type ℓ where
  pub slots : B
  pub empty : Cond
  pub fill : Cond

-- The end-of-production marker.
abbrev pub marker : ℤ
marker = negsuc 0

pub data Point : Type 0 where
  -- `producer`: the first loop's test, the test for a full buffer, the wait on `empty`
  produce test_full full_wait : ℕ → Point
  -- the same in the second loop
  mark test_mark mark_wait : ℕ → Point
  produced : Point
  -- `consumer`: the loop's test, the test for an empty buffer, the wait on `fill`
  consume : ℤ → Point
  test_empty empty_wait consumed : Point

-- A step of `producer` or `consumer`. From a test under the lock to the wait or the unlock that
-- follows it is one step.
module _ {ℓ} {B : Type ℓ} (ops : Ops B) (max loops consumers : ℕ) where
  -- p2 to p6, with `p` where the thread waits and `q` where it goes on.
  abbrev pub fill_section : Memory B → ℤ → Point → Point → Memory B × Point
  fill_section m value p q =
      if ops.num_full m.slots == max
      then (record m { empty = cond_wait m.empty }, p)
      else (record m { slots = ops.do_fill m.slots value; fill = cond_signal m.fill }, q)

  -- c2 to c6
  abbrev pub get_section : Memory B → Memory B × Point
  get_section m =
      if ops.num_full m.slots == 0
      then (record m { fill = cond_wait m.fill }, empty_wait)
      else (let r = ops.do_get m.slots in
          (record m { slots = r.0; empty = cond_signal m.empty }, consume r.1))

  unfoldable pub step : Memory B → Point → Option (Memory B × Point)
  step m (produce i) = some (m, if ltb i loops then test_full i else mark 0)
  step m (test_full i) = some (fill_section m (pos i) (full_wait i) (produce (i + 1)))
  step m (full_wait i) = do c ← cond_wake m.empty; some (record m { empty = c }, test_full i)
  step m (mark j) = some (m, if ltb j consumers then test_mark j else produced)
  step m (test_mark j) = some (fill_section m marker (mark_wait j) (mark (j + 1)))
  step m (mark_wait j) = do c ← cond_wake m.empty; some (record m { empty = c }, test_mark j)
  step m produced = none
  step m (consume tmp) = some (m, if eq_ℤ tmp marker then consumed else test_empty)
  step m test_empty = some (get_section m)
  step m empty_wait = do c ← cond_wake m.fill; some (record m { fill = c }, test_empty)
  step m consumed = none

-- `main`: the producer is the first thread.
abbrev pub points : ℕ → Point
points zero = produce 0
points (suc i) = consume (pos 0)

abbrev pub init {ℓ} : {B : Type ℓ} → B → System (Memory B) Point
init b = record { mem = record { slots = b; empty = cond_init; fill = cond_init }; pc = points }
