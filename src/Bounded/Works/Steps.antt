-- ===== src/Bounded/Works/Steps.antt =====
-- What each step keeps.
use ostep_code.Prelude.{ℕ, zero, suc, ◌+◌, ◌-◌, ◌≤◌, ◌≡◌, ap, ◌∙◌, some, arith, ℤ, pos, negsuc}
use ostep_code.Bounded.Queue.{markers, is_marker, markers_snoc, markers_cons}
use ostep_code.Bounded.Ring.{
  counted, values, fill_wrap_values, get_wrap_values, do_fill_wrap, do_get_wrap,
}
use ostep_code.Bounded.Works.{
  Memory, Round, value_of, mark_of, Point, produce, wait_empty, lock_fill, filling, unlock_fill,
  post_full, produced, consume, wait_full, lock_get, getting, unlock_get, post_empty, consumed,
  put_value, step_works,
}
use ostep_code.Bounded.Works.Weights.{Sum, before_put, after_put, past_end, Inv, Moved}

-- A round puts one marker if it is one of the second loop's.
put_marks :
    (c : ℕ) (r : Round)
    → past_end c r ≡ 0
    → after_put c r + is_marker (put_value r) ≡ before_put c r
put_marks c (value_of i) h = omega arith
put_marks c (mark_of j) h = ground arith

is_marker-le-one : (v : ℤ) → is_marker v ≤ 1
is_marker-le-one (pos n) = omega arith
is_marker-le-one (negsuc zero) = omega arith
is_marker-le-one (negsuc (suc n)) = omega arith

module _ (consumers max : ℕ) (m : Memory) (t t' : Sum → ℕ) where
  keep_filling :
      (r : Round)
      → Moved consumers (filling r) (unlock_fill r) t t'
      → Inv consumers max m t
      → Inv consumers max (record m { globals = do_fill_wrap max m.globals (put_value r) }) t'
  keep_filling r h j =
      let v = put_value r in
      let (is_ring, same) =
        fill_wrap_values max m.globals j.number v j.is_ring (omega (arith, h, j)) in
      let marks = ap markers same ∙ markers_snoc (values max (counted max m.globals j.number)) v in
      record {
        one_lock = omega (arith, h, j);
        permits = omega (arith, h, j);
        number = j.number + 1;
        slots = omega (arith, h, j);
        is_ring = is_ring;
        all_consumers = omega (arith, h, j);
        all_marks = omega (arith, h, j, marks, put_marks consumers r (omega (arith, h, j)));
        none_astray = omega (arith, h, j);
      }

  keep_getting :
      Moved consumers getting (unlock_get ((do_get_wrap max m.globals).1)) t t'
      → Inv consumers max m t
      → Inv consumers max (record m { globals = (do_get_wrap max m.globals).0 }) t'
  keep_getting h j =
      let (is_ring, same) =
        get_wrap_values max m.globals j.number j.is_ring (omega (arith, h, j)) in
      let marks =
        ap markers same
        ∙ markers_cons ((do_get_wrap max m.globals).1)
            (values max (counted max ((do_get_wrap max m.globals).0) (j.number - 1))) in
      record {
        one_lock = omega (arith, h, j);
        permits = omega (arith, h, j);
        number = j.number - 1;
        slots = omega (arith, h, j);
        is_ring = is_ring;
        all_consumers = omega (arith, h, j, is_marker-le-one ((do_get_wrap max m.globals).1));
        all_marks = omega (arith, h, j, marks);
        none_astray = omega (arith, h, j);
      }

module _ (consumers : ℕ) where
  module _ (max loops : ℕ) (m m' : Memory) (t t' : Sum → ℕ) where
    abbrev Keeps : Point → Point → Type 0
    Keeps p q =
        step_works max loops consumers m p ≡ some (m', q)
        → Moved consumers p q t t'
        → Inv consumers max m t
        → Inv consumers max m' t'

    keep_consume : (v : ℤ) (q : Point) → Keeps (consume v) q
    unfolding step_works
    keep_consume (pos n) q e h j = ground arith
    keep_consume (negsuc zero) q e h j = ground arith
    keep_consume (negsuc (suc n)) q e h j = ground arith

    keep_produce : (r : Round) (q : Point) → Keeps (produce r) q
    unfolding step_works
    keep_produce (value_of i) q e h j = ground arith
    keep_produce (mark_of i) q e h j = ground arith

    keep_post : (r : Round) (q : Point) → Keeps (post_full r) q
    unfolding step_works
    keep_post (value_of i) q e h j = ground arith
    keep_post (mark_of i) q e h j = ground arith

    pub keep : (p q : Point) → Keeps p q
    unfolding step_works
    keep (produce r) q e h j = keep_produce r q e h j
    keep (wait_empty r) q e h j = ground arith
    keep (lock_fill r) q e h j = ground arith
    keep (filling r) q e h j = ground (arith, keep_filling consumers max m t t' r)
    keep (unlock_fill r) q e h j = ground arith
    keep (post_full r) q e h j = keep_post r q e h j
    keep produced q e h j = ground arith
    keep (consume v) q e h j = keep_consume v q e h j
    keep wait_full q e h j = ground arith
    keep lock_get q e h j = ground arith
    keep getting q e h j = ground (arith, keep_getting consumers max m t t')
    keep (unlock_get v) q e h j = ground arith
    keep (post_empty v) q e h j = ground arith
    keep consumed q e h j = ground arith
