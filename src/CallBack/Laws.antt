-- ===== src/CallBack/Laws.antt =====
-- Theorems about StartTwoTasks.
use ostep_code.Prelude.{ℕ, ◌≡◌, refl, true, false, none, some, [], ◌∷◌, ℕ_discrete, arith}
use ostep_code.Threads.{System, Run, Reach, follow, follow-Reach}
use ostep_code.Threads.Two.{two-inv}
use ostep_code.CallBack.{
  Memory, Point, not_started, count_down, load_counter, end, over, step, init, init_parallel,
}

-- The counter, the calls and the flag, by where the two tasks are.
abbrev At : Memory → Point → Point → Type 0
At m count_down not_started = (m.counter ≡ 2) × (m.calls ≡ 0) × (m.first_through ≡ false)
At m load_counter not_started = (m.counter ≡ 1) × (m.calls ≡ 0) × (m.first_through ≡ false)
At m end not_started = (m.counter ≡ 1) × (m.calls ≡ 0) × (m.first_through ≡ false)
At m over not_started = (m.counter ≡ 1) × (m.calls ≡ 0) × (m.first_through ≡ true)
At m over count_down = (m.counter ≡ 1) × (m.calls ≡ 0)
At m over load_counter = (m.counter ≡ 0) × (m.calls ≡ 0)
At m over end = (m.counter ≡ 0) × (m.calls ≡ 1)
At m over over = (m.counter ≡ 0) × (m.calls ≡ 1)
At m _ _ = ⊥

first : (m m' : Memory) (p p' q : Point) → At m p q → step m p ≡ some (m', p') → At m' p' q
unfolding step
first m m' p p' not_started v e = ground arith
first m m' p p' q v e = ground arith

second : (m m' : Memory) (p q q' : Point) → At m p q → step m q ≡ some (m', q') → At m' p q'
unfolding step
second m m' p q q' v e = ground arith

stuck_at :
    (m : Memory) (p q : Point)
    → At m p q
    → step m p ≡ none
    → step m q ≡ none
    → (p ≡ over) × (q ≡ over) × (m.calls ≡ 1)
unfolding step
stuck_at m p q v e f = ground arith

-- Where neither task has a step, both have returned and the call-back has been called once.
pub called_once :
    {k : ℕ} {s : System Memory Point}
    → Run step 2 init k s
    → step s.mem (s.pc 0) ≡ none
    → step s.mem (s.pc 1) ≡ none
    → (s.pc 0 ≡ over) × (s.pc 1 ≡ over) × (s.mem.calls ≡ 1)
called_once {s = s} r e f =
    stuck_at s.mem (s.pc 0) (s.pc 1) (two-inv step At first second (refl, refl, refl) r) e f

-- Both tasks count down before either loads.
abbrev crossed : System Memory Point
crossed = follow step 2 (0 ∷ 1 ∷ 0 ∷ 1 ∷ 0 ∷ 1 ∷ []) init_parallel

pub called_twice : Reach step 2 init_parallel crossed × (crossed.mem.calls ≡ 2)
unfolding step follow ℕ_discrete
called_twice = (follow-Reach step 2 (0 ∷ 1 ∷ 0 ∷ 1 ∷ 0 ∷ 1 ∷ []) init_parallel, refl)
