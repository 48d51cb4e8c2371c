-- ===== src/Bounded/Works/Ends.antt =====
-- A measure of threads and permits that every step lowers.
use ostep_code.Prelude.{ℕ, ◌+◌, ◌-◌, ◌*◌, ◌<◌, ◌≡◌, some, arith}
use ostep_code.Bounded.Works.{
  Memory, Round, value_of, mark_of, Point, produce, wait_empty, lock_fill, filling, unlock_fill,
  post_full, produced, consume, wait_full, lock_get, getting, unlock_get, post_empty, consumed,
  step_works,
}

-- What the permits of `full` let the consumers do.
abbrev pub waiting_full : Memory → ℕ
waiting_full m = 6 * m.full

module _ (loops consumers : ℕ) where
  abbrev rounds_left : Round → ℕ
  rounds_left (value_of i) = 12 * (loops - i) + 12 * consumers + 2
  rounds_left (mark_of j) = 12 * (consumers - j) + 1

  abbrev rest : Round → ℕ
  rest (value_of i) = 12 * (loops - (i + 1)) + 12 * consumers + 2
  rest (mark_of j) = 12 * (consumers - (j + 1)) + 1

  abbrev pub left : Point → ℕ
  left (produce r) = rounds_left r
  left (wait_empty r) = 11 + rest r
  left (lock_fill r) = 10 + rest r
  left (filling r) = 9 + rest r
  left (unlock_fill r) = 8 + rest r
  left (post_full r) = 7 + rest r
  left produced = 0
  left (consume v) = 2
  left wait_full = 1
  left lock_get = 6
  left getting = 5
  left (unlock_get v) = 4
  left (post_empty v) = 3
  left consumed = 0

pub left_falls :
    (max loops consumers : ℕ) (m m' : Memory) (p p' : Point)
    → step_works max loops consumers m p ≡ some (m', p')
    → waiting_full m' + left loops consumers p' < waiting_full m + left loops consumers p
unfolding step_works
left_falls max loops consumers m m' (produce (value_of i)) p' e = ground arith
left_falls max loops consumers m m' (produce (mark_of j)) p' e = ground arith
left_falls max loops consumers m m' (wait_empty r) p' e = ground arith
left_falls max loops consumers m m' (lock_fill r) p' e = ground arith
left_falls max loops consumers m m' (filling r) p' e = ground arith
left_falls max loops consumers m m' (unlock_fill r) p' e = ground arith
left_falls max loops consumers m m' (post_full (value_of i)) p' e = ground arith
left_falls max loops consumers m m' (post_full (mark_of j)) p' e = ground arith
left_falls max loops consumers m m' produced p' e = ground arith
left_falls max loops consumers m m' (consume v) p' e = ground arith
left_falls max loops consumers m m' wait_full p' e = ground arith
left_falls max loops consumers m m' lock_get p' e = ground arith
left_falls max loops consumers m m' getting p' e = ground arith
left_falls max loops consumers m m' (unlock_get v) p' e = ground arith
left_falls max loops consumers m m' (post_empty v) p' e = ground arith
left_falls max loops consumers m m' consumed p' e = ground arith
