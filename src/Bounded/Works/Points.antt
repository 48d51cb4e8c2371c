-- ===== src/Bounded/Works/Points.antt =====
-- What holds at a point at which a thread can be stuck.
use ostep_code.Prelude.{ℕ, ◌+◌, ◌≤◌, ◌<◌, ◌≡◌, arith, ℤ, List, [], ◌∷◌, length}
use ostep_code.Bounded.Queue.{markers, markers_nil}
use ostep_code.Bounded.Works.{
  Round, value_of, mark_of, Point, wait_empty, lock_fill, produced, wait_full, lock_get, consumed,
}
use ostep_code.Bounded.Works.Weights.{
  locked, filled, coming, other, reading, to_mark, astray, past_end, before_put,
}

-- Whether a thread has returned.
abbrev pub Returned : Point → Type 0
Returned produced = Unit
Returned consumed = Unit
Returned _ = ⊥

-- The points that can always be left, and those that wait for a semaphore.
abbrev pub free : Point → ℕ
free (wait_empty r) = 0
free (lock_fill r) = 0
free produced = 0
free wait_full = 0
free lock_get = 0
free consumed = 0
free _ = 1

abbrev pub at_mutex : Point → ℕ
at_mutex (lock_fill r) = 1
at_mutex lock_get = 1
at_mutex _ = 0

abbrev pub at_empty : Point → ℕ
at_empty (wait_empty r) = 1
at_empty _ = 0

abbrev pub at_full : Point → ℕ
at_full wait_full = 1
at_full _ = 0

pub locked-zero : (p : Point) → free p ≡ 0 → locked p ≡ 0
locked-zero p h = ground arith

pub moving-zero : (p : Point) → free p ≡ 0 → at_mutex p ≡ 0 → filled p + coming p + other p ≡ 0
moving-zero p h k = ground arith

pub reading-zero : (p : Point) → free p ≡ 0 → at_mutex p ≡ 0 → at_full p ≡ 0 → reading p ≡ 0
reading-zero p h k l = ground arith

pub to_mark-zero :
    (c : ℕ) (p : Point) → free p ≡ 0 → at_mutex p ≡ 0 → at_empty p ≡ 0 → to_mark c p ≡ 0
to_mark-zero c p h k l = ground arith

pub open_round : (c : ℕ) (r : Round) → 0 < c → past_end c r ≡ 0 → 0 < before_put c r
open_round c (value_of i) h z = h
open_round c (mark_of j) h z = ground arith

pub left_to_mark : (c : ℕ) (p : Point) → 0 < c → 0 < at_empty p → astray c p ≡ 0 → 0 < to_mark c p
left_to_mark c p h k l = ground (arith, open_round c)

pub at_full-le-reading : (p : Point) → at_full p ≤ reading p
at_full-le-reading p = ground arith

pub returned :
    (p : Point) → free p ≡ 0 → at_mutex p ≡ 0 → at_empty p ≡ 0 → at_full p ≡ 0 → Returned p
returned p h k l e = ground arith

pub no_values : (xs : List ℤ) → length xs ≡ 0 → markers xs ≡ 0
no_values [] h = markers_nil
no_values (x ∷ xs) h = absurd (omega (arith, h))
