-- ===== src/Bounded/Ends.antt =====
-- A measure of threads, values and wake-ups that every step of pc.c lowers.
use ostep_code.Prelude.{ℕ, ◌+◌, ◌-◌, ◌*◌, ◌<◌, ◌≡◌, some, arith}
use ostep_code.Bounded.{
  Memory, Point, produce, test_full, full_wait, mark, test_mark, mark_wait, produced, consume,
  test_empty, empty_wait, consumed, step,
}
use ostep_code.Bounded.Ring.{Ring, ring, do_fill, do_get}

-- What the values in the buffer and the wake-ups let the threads do.
abbrev pub in_memory : Memory Ring → ℕ
in_memory m = 4 * m.slots.num_full + 2 * (m.fill.woken + m.empty.woken)

module _ (loops consumers : ℕ) where
  abbrev rest : ℕ → ℕ
  rest i = 8 * (loops - (i + 1)) + 8 * consumers + 2

  abbrev marks_rest : ℕ → ℕ
  marks_rest j = 8 * (consumers - (j + 1)) + 1

  abbrev pub left : Point → ℕ
  left (produce i) = 8 * (loops - i) + 8 * consumers + 2
  left (test_full i) = 7 + rest i
  left (full_wait i) = 6 + rest i
  left (mark j) = 8 * (consumers - j) + 1
  left (test_mark j) = 7 + marks_rest j
  left (mark_wait j) = 6 + marks_rest j
  left produced = 0
  left (consume v) = 2
  left test_empty = 1
  left empty_wait = 0
  left consumed = 0

module _ (max loops consumers : ℕ) (m m' : Memory Ring) where
  abbrev Lowers : Point → Type 0
  Lowers p =
      (q : Point)
      → step (ring max) max loops consumers m p ≡ some (m', q)
      → in_memory m' + left loops consumers q < in_memory m + left loops consumers p

  pub left_falls : (p : Point) → Lowers p
  unfolding step ring do_fill do_get
  left_falls (produce i) q e = ground arith
  left_falls (test_full i) q e = ground arith
  left_falls (full_wait i) q e = ground arith
  left_falls (mark j) q e = ground arith
  left_falls (test_mark j) q e = ground arith
  left_falls (mark_wait j) q e = ground arith
  left_falls produced q e = ground arith
  left_falls (consume v) q e = ground arith
  left_falls test_empty q e = ground arith
  left_falls empty_wait q e = ground arith
  left_falls consumed q e = ground arith
