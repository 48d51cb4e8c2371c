-- ===== src/Semaphores/Throttle/Laws.antt =====
-- Theorems about the throttle.
use ostep_code.Prelude.{ℕ, ◌+◌, ◌≤◌, ◌<◌, ◌≡◌, ◌≢◌, none, some, arith}
use ostep_code.Threads.{total, System, Run}
use ostep_code.Threads.Sums.{Shift, sum-inv, stuck-zero, zero-all, total-const}
use ostep_code.Semaphores.Throttle.{Point, outside, inside, over, step, init}

abbrev pub within : Point → ℕ
within inside = 1
within _ = 0

-- Whether a child has not returned.
abbrev running : Point → ℕ
running over = 0
running _ = 1

abbrev weights : Unit {0} → Point → ℕ
weights a = within

-- Each child inside holds one of the permits.
record Inv (v s : ℕ) (t : Unit {0} → ℕ) : Type 0 where
  permits : s + t tt ≡ v

keep :
    (n v s s' : ℕ) (p q : Point) (t t' : Unit {0} → ℕ)
    → step s p ≡ some (s', q)
    → Shift step n weights p q t t'
    → Inv v s t
    → Inv v s' t'
unfolding step
keep n v s s' outside q t t' e h j = ground (arith, h.part tt, h.change tt, j.permits)
keep n v s s' inside q t t' e h j = ground (arith, h.part tt, h.change tt, j.permits)
keep n v s s' over q t t' e h j = ground arith

live : (s : ℕ) (p : Point) → 0 < s → 0 < running p → step s p ≢ none
unfolding step
live s outside h k = ground arith
live s inside h k = ground arith
live s over h k = ground arith

live_inside : (s : ℕ) (p : Point) → 0 < within p → step s p ≢ none
unfolding step
live_inside s outside k = ground arith
live_inside s inside k = ground arith
live_inside s over k = ground arith

returned : (p : Point) → running p ≡ 0 → p ≡ over
returned p z = ground arith

module _ {n v k : ℕ} {s : System ℕ Point} (r : Run step n (init v) k s) where
  reached : Inv v s.mem (λ a. total within n s.pc)
  reached = sum-inv step n weights (Inv v) (keep n v) begin r
    where
      begin : Inv v v (λ a. total within n (λ i. outside))
      begin = ground (arith, total-const within outside n)

  -- No more than `sem_value` children are between the wait and the post.
  pub throttle_safe : total within n s.pc ≤ v
  throttle_safe = ground (arith, reached.permits)

  -- Where no child has a step and `sem_value` is not zero, all have returned.
  pub throttle_complete :
      0 < v → ((i : ℕ) → i < n → step s.mem (s.pc i) ≡ none) → (i : ℕ) → i < n → s.pc i ≡ over
  throttle_complete h stuck i lt =
      let free = stuck-zero step n s stuck within (live_inside s.mem) in
      let some_left : 0 < s.mem = omega (arith, reached.permits, free) in
      let none_run = stuck-zero step n s stuck running (λ p. live s.mem p some_left) in
      returned (s.pc i) (zero-all running n s.pc none_run i lt)
