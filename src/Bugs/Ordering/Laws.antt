-- ===== src/Bugs/Ordering/Laws.antt =====
-- Theorems about ordering.c and ordering_fixed.c.
use ostep_code.Prelude.{ℕ, ◌≡◌, ◌≢◌, refl, subst, ◌⊎◌, inl, inr, true, false, none, some, arith}
use ostep_code.Threads.{System, Run}
use ostep_code.Threads.Two.{two-inv, Reaches, starts, first_moves, second_moves}
use ostep_code.Bugs.Ordering.{
  Memory, Point, assign, tell, wait_thread, wait_init, use_thread, crashed, over, step, step_fixed,
  init, init_fixed,
}

-- In ordering.c `mMain` can have read through the unset `mThread` before `main` goes on.
pub crash_reached : Reaches (step true) (init true) (init true).mem assign crashed
unfolding step
crash_reached =
    second_moves (step true) (init true).mem (starts (step true) (init true)) crashed refl

-- Where the threads stand when `malloc` gives a structure.
abbrev IsMain : Memory → Point → Type 0
IsMain m assign = m.mt_init ≡ 0
IsMain m tell = (m.mt_init ≡ 0) × (m.m_thread ≡ some 0)
IsMain m wait_thread = m.m_thread ≡ some 0
IsMain m over = m.m_thread ≡ some 0
IsMain m _ = ⊥

abbrev IsStarted : Memory → Point → Type 0
IsStarted m wait_init = (m.mt_init ≡ 0) ⊎ (m.m_thread ≡ some 0)
IsStarted m use_thread = m.m_thread ≡ some 0
IsStarted m over = m.m_thread ≡ some 0
IsStarted m _ = ⊥

record Inv (m : Memory) (p q : Point) : Type 0 where
  is_main : IsMain m p
  is_started : IsStarted m q

first :
    (m m' : Memory) (p p' q : Point) → Inv m p q → step_fixed true m p ≡ some (m', p') → Inv m' p' q
unfolding step_fixed
first m m' p p' wait_init v e = ground arith
first m m' p p' use_thread v e = ground arith
first m m' p p' over v e = ground arith
first m m' p p' assign v e = absurd v.is_started
first m m' p p' tell v e = absurd v.is_started
first m m' p p' wait_thread v e = absurd v.is_started
first m m' p p' crashed v e = absurd v.is_started

second :
    (m m' : Memory) (p q q' : Point) → Inv m p q → step_fixed true m q ≡ some (m', q') → Inv m' p q'
unfolding step_fixed
second m m' p q q' v e = ground arith

-- If `malloc` gives a structure, neither thread of ordering_fixed.c reads through an unset
-- `mThread`, and `mMain` reads it only when it points to a structure with `PR_STATE_INIT`.
pub started_safe :
    {k : ℕ} {s : System Memory Point}
    → Run (step_fixed true) 2 (init_fixed true) k s
    → (s.pc 0 ≢ crashed) × (s.pc 1 ≢ crashed) × ((s.pc 1 ≢ use_thread) ⊎ (s.mem.m_thread ≡ some 0))
started_safe {s = s} r =
    let v = two-inv (step_fixed true) Inv first second start r in
    (
      λ e. subst (IsMain s.mem) e v.is_main,
      λ e. subst (IsStarted s.mem) e v.is_started,
      reads (s.pc 1) v.is_started,
    )
  where
    start : Inv (init_fixed true).mem assign wait_init
    start = record { is_main = refl; is_started = inl refl }

    reads : (q : Point) → IsStarted s.mem q → (q ≢ use_thread) ⊎ (s.mem.m_thread ≡ some 0)
    reads wait_init v = inl (λ e. ground arith)
    reads use_thread v = inr v
    reads over v = inl (λ e. ground arith)
    reads assign v = absurd v
    reads tell v = absurd v
    reads wait_thread v = absurd v
    reads crashed v = absurd v

-- If `malloc` fails, `main` reads through NULL in `PR_WaitThread`, in both programs.
pub malloc_crash :
    Reaches
      (step_fixed false)
      (init_fixed false)
      (record { m_thread = none; mt_init = 1 })
      crashed
      over
unfolding step_fixed
malloc_crash =
    let step' = step_fixed false in
    let told : Memory = record { m_thread = none; mt_init = 1 } in
    let r₁ = first_moves step' (init_fixed false).mem (starts step' (init_fixed false)) tell refl in
    first_moves step' told (first_moves step' told r₁ wait_thread refl) crashed refl
