-- ===== src/Bugs/Deadlock/Laws.antt =====
-- Theorems about deadlock.c.
use ostep_code.Prelude.{ℕ, ◌+◌, ◌≡◌, refl, ◌⊎◌, none, some, arith}
use ostep_code.Threads.{System, Run}
use ostep_code.Threads.Two.{two-inv, Reaches, starts, first_moves, second_moves}
use ostep_code.Bugs.Deadlock.{
  Memory, outside, one_lock, unlock_l1, unlock_l2, over, Point, thread_1, thread_2, step, init,
}

-- The permits of `L1` and of `L2` that a thread holds.
abbrev holds_l1 : Point → ℕ
holds_l1 (thread_1 one_lock) = 1
holds_l1 (thread_1 unlock_l1) = 1
holds_l1 (thread_2 unlock_l1) = 1
holds_l1 _ = 0

abbrev holds_l2 : Point → ℕ
holds_l2 (thread_1 unlock_l1) = 1
holds_l2 (thread_1 unlock_l2) = 1
holds_l2 (thread_2 one_lock) = 1
holds_l2 (thread_2 unlock_l1) = 1
holds_l2 (thread_2 unlock_l2) = 1
holds_l2 _ = 0

abbrev IsFirst : Point → Type 0
IsFirst (thread_1 a) = Unit
IsFirst (thread_2 a) = ⊥

abbrev IsSecond : Point → Type 0
IsSecond (thread_1 a) = ⊥
IsSecond (thread_2 a) = Unit

record Inv (m : Memory) (p q : Point) : Type 0 where
  l1_permits : m.l1 + holds_l1 p + holds_l1 q ≡ 1
  l2_permits : m.l2 + holds_l2 p + holds_l2 q ≡ 1
  is_first : IsFirst p
  is_second : IsSecond q

first : (m m' : Memory) (p p' q : Point) → Inv m p q → step m p ≡ some (m', p') → Inv m' p' q
unfolding step
first m m' (thread_1 outside) p' q v e = ground arith
first m m' (thread_1 one_lock) p' q v e = ground arith
first m m' (thread_1 unlock_l1) p' q v e = ground arith
first m m' (thread_1 unlock_l2) p' q v e = ground arith
first m m' (thread_1 over) p' q v e = ground arith
first m m' (thread_2 a) p' q v e = absurd v.is_first

second : (m m' : Memory) (p q q' : Point) → Inv m p q → step m q ≡ some (m', q') → Inv m' p q'
unfolding step
second m m' p (thread_2 outside) q' v e = ground arith
second m m' p (thread_2 one_lock) q' v e = ground arith
second m m' p (thread_2 unlock_l1) q' v e = ground arith
second m m' p (thread_2 unlock_l2) q' v e = ground arith
second m m' p (thread_2 over) q' v e = ground arith
second m m' p (thread_1 a) q' v e = absurd v.is_second

stuck_at :
    (m : Memory) (p q : Point)
    → Inv m p q
    → step m p ≡ none
    → step m q ≡ none
    → (p ≡ thread_1 over) × (q ≡ thread_2 over) ⊎ (p ≡ thread_1 one_lock) × (q ≡ thread_2 one_lock)
unfolding step
stuck_at m (thread_1 a) (thread_2 b) v e f = ground arith
stuck_at m (thread_2 a) q v e f = absurd v.is_first
stuck_at m p (thread_1 a) v e f = absurd v.is_second

-- Where neither thread has a step, either both have returned, or `thread1` has `L1` and wants `L2`
-- while `thread2` has `L2` and wants `L1`.
pub stuck_shape :
    {k : ℕ} {s : System Memory Point}
    → Run step 2 init k s
    → step s.mem (s.pc 0) ≡ none
    → step s.mem (s.pc 1) ≡ none
    → (s.pc 0 ≡ thread_1 over) × (s.pc 1 ≡ thread_2 over)
      ⊎ (s.pc 0 ≡ thread_1 one_lock) × (s.pc 1 ≡ thread_2 one_lock)
stuck_shape {s = s} r e f =
    stuck_at s.mem (s.pc 0) (s.pc 1) (two-inv step Inv first second start r) e f
  where
    start : Inv init.mem (thread_1 outside) (thread_2 outside)
    start = record { l1_permits = refl; l2_permits = refl; is_first = tt; is_second = tt }

-- The second case is reached.
pub deadlock_reached :
    Reaches step init (record { l1 = 0; l2 = 0 }) (thread_1 one_lock) (thread_2 one_lock)
unfolding step
deadlock_reached =
    let r =
      first_moves step (record { l1 = 0; l2 = 1 }) (starts step init) (thread_1 one_lock) refl in
    second_moves step (record { l1 = 0; l2 = 0 }) r (thread_2 one_lock) refl
