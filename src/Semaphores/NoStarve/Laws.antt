-- ===== src/Semaphores/NoStarve/Laws.antt =====
-- How many threads can be in the critical section, by the value `t2` starts at.
use ostep_code.Prelude.{ℕ, ◌+◌, ◌≤◌, ◌≡◌, refl, some, arith, List, [], ◌∷◌, ℕ_discrete}
use ostep_code.Threads.{total, total_mono, System, Run, Reach, follow, follow-Reach}
use ostep_code.Threads.Sums.{Shift, sums, sum-inv, total-const}
use ostep_code.Semaphores.NoStarve.{
  NsMutex, ns_mutex_init, Point, wait_mutex, enter_room1, post_mutex, wait_t1, leave_room1,
  test_room1, last_mutex, more_mutex, wait_t2, load_leave, store_leave, critical, step, init,
}

-- The threads that keep what a turnstile gave them.
abbrev holding : Point → ℕ
holding wait_mutex = 0
holding enter_room1 = 0
holding post_mutex = 0
holding wait_t1 = 0
holding wait_t2 = 0
holding _ = 1

-- The threads that hold `mutex`.
abbrev locking : Point → ℕ
locking enter_room1 = 1
locking post_mutex = 1
locking leave_room1 = 1
locking test_room1 = 1
locking last_mutex = 1
locking more_mutex = 1
locking _ = 0

-- The threads past both turnstiles and not yet in `ns_mutex_release`.
abbrev pub inside : Point → ℕ
inside load_leave = 1
inside (store_leave x) = 1
inside critical = 1
inside _ = 0

data Sum : Type 0 where
  of_holding of_locking : Sum

abbrev weights : Sum → Point → ℕ
weights of_holding = holding
weights of_locking = locking

record Inv (v : ℕ) (m : NsMutex) (t : Sum → ℕ) : Type 0 where
  permits : m.t1 + m.t2 + t of_holding ≡ 1 + v
  locked : m.mutex + t of_locking ≡ 1

record Moved (p q : Point) (t t' : Sum → ℕ) : Type 0 where
  part_holding : holding p ≤ t of_holding
  part_locking : locking p ≤ t of_locking
  new_holding : t' of_holding + holding p ≡ t of_holding + holding q
  new_locking : t' of_locking + locking p ≡ t of_locking + locking q

keep :
    (v : ℕ) (m m' : NsMutex) (p q : Point) (t t' : Sum → ℕ)
    → step m p ≡ some (m', q)
    → Moved p q t t'
    → Inv v m t
    → Inv v m' t'
unfolding step
keep v m m' p q t t' e h j = ground arith

moved : {n : ℕ} (p q : Point) (t t' : Sum → ℕ) → Shift step n weights p q t t' → Moved p q t t'
moved p q t t' h = record {
  part_holding = h.part of_holding;
  part_locking = h.part of_locking;
  new_holding = h.change of_holding;
  new_locking = h.change of_locking;
}

inside-le-holding : (p : Point) → inside p ≤ holding p
inside-le-holding p = ground arith

begin : (n v : ℕ) → Inv v (init v).mem (sums step n weights (init v).pc)
begin n v = ground (arith, total-const holding wait_mutex n, total-const locking wait_mutex n)

module _ {n v k : ℕ} {s : System NsMutex Point} (r : Run step n (init v) k s) where
  reached : Inv v s.mem (sums step n weights s.pc)
  reached =
      sum-inv step n weights (Inv v)
        (λ m m' p q t t' e h. keep v m m' p q t t' e (moved p q t t' h)) (begin n v) r

  -- Where `t2` starts at 0, no two threads are in the critical section, and in general no more
  -- than one and what `t2` starts at.
  pub acquire_safe : total inside n s.pc ≤ 1 + v
  acquire_safe = omega (arith, reached.permits, total_mono inside holding inside-le-holding n s.pc)

-- With `ns_mutex_init`, two threads come into the critical section together: the first is let
-- through by the permit that `t2` starts with, the second by the one it posts itself.
abbrev schedule : List ℕ
schedule =
    0 ∷ 0 ∷ 0 ∷ 1 ∷ 1 ∷ 1 ∷ 0 ∷ 0 ∷ 0 ∷ 0 ∷ 0 ∷ 0 ∷ 0 ∷ 0 ∷ 0 ∷ 0 ∷ 0 ∷ 1 ∷ 1 ∷ 1 ∷ 1 ∷ 1 ∷ 1 ∷ 1
    ∷ 1 ∷ 1 ∷ 1 ∷ 1 ∷ []

abbrev meeting : System NsMutex Point
meeting = follow step 2 schedule (record { mem = ns_mutex_init; pc = λ i. wait_mutex })

pub two_inside :
    Reach step 2 (record { mem = ns_mutex_init; pc = λ i. wait_mutex }) meeting
    × (meeting.pc 0 ≡ critical)
    × (meeting.pc 1 ≡ critical)
unfolding step follow ℕ_discrete
two_inside = (
  follow-Reach step 2 schedule (record { mem = ns_mutex_init; pc = λ i. wait_mutex }),
  refl,
  refl,
)
