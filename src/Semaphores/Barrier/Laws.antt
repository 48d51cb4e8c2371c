-- ===== src/Semaphores/Barrier/Laws.antt =====
-- Theorems about the barrier.
use ostep_code.Prelude.{ℕ, ◌+◌, ◌*◌, ◌≤◌, ◌<◌, ◌≡◌, ◌≢◌, none, some, arith}
use ostep_code.Threads.{total, le-total, total-zero, System, Run, Run-bound}
use ostep_code.Threads.Sums.{sums, sum-inv, stuck-zero, zero-all, total-const}
use ostep_code.Semaphores.Barrier.{
  Barrier, barrier_init, Point, say_before, enter, add, test_first, leave, wait_all, again,
  test_second, fewer_threads, fewer_count, post_first, post_second, say_after, over, step, init,
}
use ostep_code.Semaphores.Barrier.Steps.{
  uncounted, held, past, posting, halfway, listed, weights, Inv, moved, keep,
}

-- The points that can always be left, those that wait for `sem1`, those that wait for `sem2`.
abbrev free : Point → ℕ
free enter = 0
free again = 0
free wait_all = 0
free over = 0
free _ = 1

abbrev at_first : Point → ℕ
at_first enter = 1
at_first again = 1
at_first _ = 0

abbrev at_second : Point → ℕ
at_second wait_all = 1
at_second _ = 0

live : (b : Barrier) (p : Point) → 0 < free p → step b p ≢ none
unfolding step
live b p h = ground arith

live_first : (b : Barrier) (p : Point) → 0 < b.sem1 → 0 < at_first p → step b p ≢ none
unfolding step
live_first b p k h = ground arith

live_second : (b : Barrier) (p : Point) → 0 < b.sem2 → 0 < at_second p → step b p ≢ none
unfolding step
live_second b p k h = ground arith

returned : (p : Point) → free p ≡ 0 → at_first p ≡ 0 → at_second p ≡ 0 → p ≡ over
returned p a b c = ground arith

held-zero : (p : Point) → free p ≡ 0 → held p + halfway p ≡ 0
held-zero p a = ground arith

waiting-zero : (p : Point) → free p ≡ 0 → at_first p ≡ 0 → posting p + uncounted p ≡ 0
waiting-zero p a b = ground arith

-- The steps a child still has at most.
abbrev left : Point → ℕ
left say_before = 13
left enter = 12
left add = 11
left test_first = 10
left leave = 9
left wait_all = 8
left again = 7
left test_second = 6
left fewer_threads = 5
left fewer_count = 4
left post_first = 3
left post_second = 2
left say_after = 1
left over = 0

left_falls : (b b' : Barrier) (p q : Point) → step b p ≡ some (b', q) → left q < left p
unfolding step
left_falls b b' p q e = ground arith

begin : (n : ℕ) → 0 < n → Inv (barrier_init n) (sums step n weights (λ i. say_before))
begin n h = ground (
  arith,
  total-const listed say_before n,
  total-const uncounted say_before n,
  total-const held say_before n,
  total-const past say_before n,
  total-const posting say_before n,
  total-const halfway say_before n,
)

module _ {n k : ℕ} {s : System Barrier Point} (r : Run step n (init n) k s) where
  reached : 0 < n → Inv s.mem (sums step n weights s.pc)
  reached h =
      sum-inv step n weights Inv (λ b b' p q t t' e h. keep b b' p q t t' e (moved p q t t' h))
        (begin n h) r

  -- While a child has not yet been counted, which is after its "before" message, none is past the
  -- wait for all.
  pub barrier_safe : (i j : ℕ) → i < n → j < n → 0 < past (s.pc i) → uncounted (s.pc j) ≡ 0
  barrier_safe i j lt lt' h =
      let v = reached (omega arith) in
      let none_left = v.all_here (omega (arith, h, le-total past n s.pc i lt)) in
      zero-all uncounted n s.pc none_left j lt'

  module _ (stuck : (i : ℕ) → i < n → step s.mem (s.pc i) ≡ none) where
    free_none : (i : ℕ) → i < n → free (s.pc i) ≡ 0
    free_none = zero-all free n s.pc (stuck-zero step n s stuck free (live s.mem))

    sum_none : (w : Point → ℕ) → ((i : ℕ) → i < n → w (s.pc i) ≡ 0) → total w n s.pc ≡ 0
    sum_none w z = total-zero w n s.pc z

    first_open : 0 < n → 0 < s.mem.sem1
    first_open h =
        let v = reached h in
        let no_held = sum_none held (λ i lt. omega (arith, held-zero (s.pc i) (free_none i lt))) in
        let no_half =
          sum_none halfway (λ i lt. omega (arith, held-zero (s.pc i) (free_none i lt))) in
        omega (arith, v.permits, no_held, no_half)

    first_none : 0 < n → (i : ℕ) → i < n → at_first (s.pc i) ≡ 0
    first_none h =
        zero-all at_first n s.pc
          (stuck-zero step n s stuck at_first (λ p. live_first s.mem p (first_open h)))

    waiting_none : 0 < n → (i : ℕ) → i < n → posting (s.pc i) + uncounted (s.pc i) ≡ 0
    waiting_none h i lt = waiting-zero (s.pc i) (free_none i lt) (first_none h i lt)

    second_open : 0 < n → 0 < s.mem.sem2
    second_open h =
        let v = reached h in
        let no_post = sum_none posting (λ i lt. omega (arith, waiting_none h i lt)) in
        let no_new = sum_none uncounted (λ i lt. omega (arith, waiting_none h i lt)) in
        omega (arith, v.awake, no_post, no_new)

    second_none : 0 < n → (i : ℕ) → i < n → at_second (s.pc i) ≡ 0
    second_none h =
        zero-all at_second n s.pc
          (stuck-zero step n s stuck at_second (λ p. live_second s.mem p (second_open h)))

    -- Where no child has a step, all have returned, and this comes after no more than thirteen steps
    -- a child.
    pub barrier_complete : (k ≤ 13 * n) × ((i : ℕ) → i < n → s.pc i ≡ over)
    barrier_complete = (
      omega (arith, Run-bound step n left left_falls r, total-const left say_before n),
      λ i lt.
          let h : 0 < n = omega arith in
          returned (s.pc i) (free_none i lt) (first_none h i lt) (second_none h i lt),
    )
