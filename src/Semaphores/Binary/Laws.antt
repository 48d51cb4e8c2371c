-- ===== src/Semaphores/Binary/Laws.antt =====
-- Theorems about binary.c.
use ostep_code.Prelude.{ℕ, ◌+◌, ◌*◌, ◌-◌, ◌≤◌, ◌<◌, ◌≡◌, none, some, arith}
use ostep_code.Threads.{System, Run, Run-bound}
use ostep_code.Threads.Sums.{total-const}
use ostep_code.Threads.Two.{two-inv}
use ostep_code.Semaphores.Binary.{Memory, Point, test, wait, load, store, post, over, step, init}

abbrev held : Point → ℕ
held (load i) = 1
held (store i x) = 1
held (post i) = 1
held _ = 0

-- The increments a thread has stored.
abbrev stored : ℕ → Point → ℕ
stored loops (test i) = i
stored loops (wait i) = i
stored loops (load i) = i
stored loops (store i x) = i
stored loops (post i) = i + 1
stored loops over = loops

-- The round is one of the loop's, and the value read is still the counter's.
abbrev Fits : ℕ → ℕ → Point → Type 0
Fits loops c (test i) = i ≤ loops
Fits loops c (wait i) = i < loops
Fits loops c (load i) = i < loops
Fits loops c (store i x) = (i < loops) × (x ≡ c)
Fits loops c (post i) = i < loops
Fits loops c over = Unit

record Inv (loops : ℕ) (m : Memory) (p q : Point) : Type 0 where
  permits : m.mutex + held p + held q ≡ 1
  counted : m.counter ≡ stored loops p + stored loops q
  fits : Fits loops m.counter p × Fits loops m.counter q

first :
    (loops : ℕ) (m m' : Memory) (p p' q : Point)
    → Inv loops m p q
    → step loops m p ≡ some (m', p')
    → Inv loops m' p' q
unfolding step
first loops m m' (test i) p' q v e = ground arith
first loops m m' (wait i) p' q v e = ground arith
first loops m m' (load i) p' q v e = ground arith
first loops m m' (store i x) p' q v e = ground arith
first loops m m' (post i) p' q v e = ground arith
first loops m m' over p' q v e = ground arith

swap : (loops : ℕ) (m : Memory) (p q : Point) → Inv loops m p q → Inv loops m q p
swap loops m p q v =
    let (a, b) = v.fits in
    record { permits = omega (arith, v.permits); counted = omega (arith, v.counted); fits = (b, a) }

second :
    (loops : ℕ) (m m' : Memory) (p q q' : Point)
    → Inv loops m p q
    → step loops m q ≡ some (m', q')
    → Inv loops m' p q'
second loops m m' p q q' v e = swap loops m' q' p (first loops m m' q q' p (swap loops m p q v) e)

stuck_at :
    (loops : ℕ) (m : Memory) (p q : Point)
    → Inv loops m p q
    → step loops m p ≡ none
    → step loops m q ≡ none
    → m.counter ≡ 2 * loops
unfolding step
stuck_at loops m p q v e f = ground arith

-- The steps a thread still has.
abbrev left : ℕ → Point → ℕ
left loops (test i) = 1 + 5 * (loops - i)
left loops (wait i) = 5 + 5 * (loops - (i + 1))
left loops (load i) = 4 + 5 * (loops - (i + 1))
left loops (store i x) = 3 + 5 * (loops - (i + 1))
left loops (post i) = 2 + 5 * (loops - (i + 1))
left loops over = 0

left_falls :
    (loops : ℕ) (m m' : Memory) (p p' : Point)
    → step loops m p ≡ some (m', p')
    → left loops p' < left loops p
unfolding step
left_falls loops m m' (test i) p' e = ground arith
left_falls loops m m' (wait i) p' e = ground arith
left_falls loops m m' (load i) p' e = ground arith
left_falls loops m m' (store i x) p' e = ground arith
left_falls loops m m' (post i) p' e = ground arith
left_falls loops m m' over p' e = ground arith

module _ (loops : ℕ) {k : ℕ} {s : System Memory Point} (r : Run (step loops) 2 init k s) where
  result :
      step loops s.mem (s.pc 0) ≡ none
      → step loops s.mem (s.pc 1) ≡ none
      → s.mem.counter ≡ 2 * loops
  result e f = stuck_at loops s.mem (s.pc 0) (s.pc 1) reached e f
    where
      begin : Inv loops init.mem (test 0) (test 0)
      begin = ground arith

      reached : Inv loops s.mem (s.pc 0) (s.pc 1)
      reached = two-inv (step loops) (Inv loops) (first loops) (second loops) begin r

  -- Where neither thread has a step the counter is twice the number of rounds, and this comes
  -- after no more than ten steps a round and two more.
  pub binary_ends :
      step loops s.mem (s.pc 0) ≡ none
      → step loops s.mem (s.pc 1) ≡ none
      → (s.mem.counter ≡ 2 * loops) × (k ≤ 10 * loops + 2)
  binary_ends e f =
      let bound = Run-bound (step loops) 2 (left loops) (left_falls loops) r in
      (result e f, omega (arith, bound, total-const (left loops) (test 0) 2))
