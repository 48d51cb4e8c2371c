-- ===== src/Semaphores/Rendezvous/Laws.antt =====
-- Theorems about the rendezvous.
use ostep_code.Prelude.{ℕ, ◌+◌, ◌≤◌, ◌≡◌, refl, none, some, arith}
use ostep_code.Threads.{System, Run}
use ostep_code.Threads.Two.{two-inv}
use ostep_code.Semaphores.Rendezvous.{
  Memory, At, say_before, post, wait, say_after, over, Point, child_1, child_2, step, init,
}

-- Whether a child is past its "before", its post, its wait.
abbrev pub said_before : At → ℕ
said_before say_before = 0
said_before _ = 1

abbrev posted : At → ℕ
posted say_before = 0
posted post = 0
posted _ = 1

abbrev pub passed : At → ℕ
passed say_after = 1
passed over = 1
passed _ = 0

abbrev pub at : Point → At
at (child_1 a) = a
at (child_2 a) = a

abbrev IsFirst : Point → Type 0
IsFirst (child_1 a) = Unit
IsFirst (child_2 a) = ⊥

abbrev IsSecond : Point → Type 0
IsSecond (child_1 a) = ⊥
IsSecond (child_2 a) = Unit

record Inv (m : Memory) (p q : Point) : Type 0 where
  first_permits : m.s1 + passed (at q) ≡ posted (at p)
  second_permits : m.s2 + passed (at p) ≡ posted (at q)
  is_first : IsFirst p
  is_second : IsSecond q

first : (m m' : Memory) (p p' q : Point) → Inv m p q → step m p ≡ some (m', p') → Inv m' p' q
unfolding step
first m m' (child_1 say_before) p' q v e = ground arith
first m m' (child_1 post) p' q v e = ground arith
first m m' (child_1 wait) p' q v e = ground arith
first m m' (child_1 say_after) p' q v e = ground arith
first m m' (child_1 over) p' q v e = ground arith
first m m' (child_2 a) p' q v e = absurd v.is_first

second : (m m' : Memory) (p q q' : Point) → Inv m p q → step m q ≡ some (m', q') → Inv m' p q'
unfolding step
second m m' p (child_2 say_before) q' v e = ground arith
second m m' p (child_2 post) q' v e = ground arith
second m m' p (child_2 wait) q' v e = ground arith
second m m' p (child_2 say_after) q' v e = ground arith
second m m' p (child_2 over) q' v e = ground arith
second m m' p (child_1 a) q' v e = absurd v.is_second

passed-le-before :
    (m : Memory) (a b : At) (v : ℕ) → v + passed a ≡ posted b → passed a ≤ said_before b
passed-le-before m a b v e = ground arith

stuck_at :
    (m : Memory) (p q : Point)
    → Inv m p q
    → step m p ≡ none
    → step m q ≡ none
    → (p ≡ child_1 over) × (q ≡ child_2 over)
unfolding step
stuck_at m p q v e f = ground arith

module _ {k : ℕ} {s : System Memory Point} (r : Run step 2 init k s) where
  reached : Inv s.mem (s.pc 0) (s.pc 1)
  reached = two-inv step Inv first second begin r
    where
      begin : Inv init.mem (child_1 say_before) (child_2 say_before)
      begin = record { first_permits = refl; second_permits = refl; is_first = tt; is_second = tt }

  -- A child that is past its wait comes after the "before" message of the other.
  pub rendezvous_safe :
      (passed (at (s.pc 0)) ≤ said_before (at (s.pc 1)))
      × (passed (at (s.pc 1)) ≤ said_before (at (s.pc 0)))
  rendezvous_safe = (
    passed-le-before s.mem (at (s.pc 0)) (at (s.pc 1)) s.mem.s2 reached.second_permits,
    passed-le-before s.mem (at (s.pc 1)) (at (s.pc 0)) s.mem.s1 reached.first_permits,
  )

  -- Where neither child has a step, both have returned.
  pub rendezvous_complete :
      step s.mem (s.pc 0) ≡ none
      → step s.mem (s.pc 1) ≡ none
      → (s.pc 0 ≡ child_1 over) × (s.pc 1 ≡ child_2 over)
  rendezvous_complete e f = stuck_at s.mem (s.pc 0) (s.pc 1) reached e f
