-- ===== src/Join/Laws.antt =====
-- Theorems about join.c.
use ostep_code.Prelude.{ℕ, ◌+◌, ◌≤◌, ◌≡◌, refl, none, some, arith, subst}
use ostep_code.Threads.{System, Run}
use ostep_code.Threads.Two.{two-inv}
use ostep_code.Join.{
  Memory, Point, lock_child, set_done, signal_parent, unlock_child, lock_parent, test, to_wait,
  asleep, relock, unlock_parent, over, step, start, init,
}

-- The permits of the mutex that a thread holds.
abbrev pub holds : Point → ℕ
holds set_done = 1
holds signal_parent = 1
holds unlock_child = 1
holds test = 1
holds to_wait = 1
holds unlock_parent = 1
holds _ = 0

-- What the place of the parent says of the sleepers.
abbrev pub IsParent : Memory → Point → Type 0
IsParent m lock_parent = (m.cond.sleeping ≡ 0) × (m.cond.woken ≡ 0)
IsParent m test = (m.cond.sleeping ≡ 0) × (m.cond.woken ≡ 0)
IsParent m to_wait = (m.cond.sleeping ≡ 0) × (m.cond.woken ≡ 0) × (m.is_done ≡ 0)
IsParent m asleep = m.cond.sleeping + m.cond.woken ≡ 1
IsParent m relock = (m.cond.sleeping ≡ 0) × (m.cond.woken ≡ 0)
IsParent m unlock_parent = (m.cond.sleeping ≡ 0) × (m.cond.woken ≡ 0)
IsParent m over = (m.cond.sleeping ≡ 0) × (m.cond.woken ≡ 0)
IsParent m _ = ⊥

-- Once the child has signalled, no one sleeps.
abbrev pub IsChild : Memory → Point → Type 0
IsChild m lock_child = Unit
IsChild m set_done = Unit
IsChild m signal_parent = Unit
IsChild m unlock_child = m.cond.sleeping ≡ 0
IsChild m over = m.cond.sleeping ≡ 0
IsChild m _ = ⊥

-- The child has written `done`, and the parent has seen it.
abbrev pub written : Point → ℕ
written signal_parent = 1
written unlock_child = 1
written over = 1
written _ = 0

abbrev pub seen : Point → ℕ
seen unlock_parent = 1
seen over = 1
seen _ = 0

record Inv (m : Memory) (p q : Point) : Type 0 where
  permits : m.mutex + holds p + holds q ≡ 1
  is_parent : IsParent m p
  is_child : IsChild m q
  told : m.is_done ≡ written q
  after : seen p ≤ written q

first : (m m' : Memory) (p p' q : Point) → Inv m p q → step m p ≡ some (m', p') → Inv m' p' q
unfolding step
first m m' lock_parent p' q v e = ground arith
first m m' test p' q v e = ground arith
first m m' to_wait p' q v e = ground arith
first m m' asleep p' q v e = ground arith
first m m' relock p' q v e = ground arith
first m m' unlock_parent p' q v e = ground arith
first m m' over p' q v e = ground arith
first m m' p p' q v e = absurd v.is_parent

second : (m m' : Memory) (p q q' : Point) → Inv m p q → step m q ≡ some (m', q') → Inv m' p q'
unfolding step
second m m' p lock_child q' v e = ground arith
second m m' p set_done q' v e = ground arith
second m m' p signal_parent q' v e = ground arith
second m m' p unlock_child q' v e = ground arith
second m m' p over q' v e = ground arith
second m m' p q q' v e = absurd v.is_child

stuck_at :
    (m : Memory) (p q : Point)
    → Inv m p q
    → step m p ≡ none
    → step m q ≡ none
    → (p ≡ over) × (q ≡ over)
unfolding step
stuck_at m p q v e f = ground arith

module _ {k : ℕ} {s : System Memory Point} (r : Run step 2 init k s) where
  reached : Inv s.mem (s.pc 0) (s.pc 1)
  reached = two-inv step Inv first second begin r
    where
      begin : Inv start lock_parent lock_child
      begin = record {
        permits = refl;
        is_parent = (refl, refl);
        is_child = tt;
        told = refl;
        after = omega arith;
      }

  -- Where neither thread of join.c has a step, both have returned: the parent is not left asleep,
  -- whether the child signals before it waits or after.
  pub join_complete :
      step s.mem (s.pc 0) ≡ none → step s.mem (s.pc 1) ≡ none → (s.pc 0 ≡ over) × (s.pc 1 ≡ over)
  join_complete e f = stuck_at s.mem (s.pc 0) (s.pc 1) reached e f

  -- The parent has returned from `thr_join` only after the child has written `done`.
  pub join_after : s.pc 0 ≡ over → (s.mem.is_done ≡ 1) × (1 ≤ written (s.pc 1))
  join_after e =
      let v = subst (λ p. Inv s.mem p (s.pc 1)) e reached in
      (omega (arith, v.told, v.after, written-le (s.pc 1)), v.after)
    where
      written-le : (q : Point) → written q ≤ 1
      written-le q = ground arith
