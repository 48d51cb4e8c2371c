-- ===== src/Bugs/Atomicity/Laws.antt =====
-- Theorems about atomicity.c and atomicity_fixed.c.
use ostep_code.Prelude.{ℕ, ◌+◌, ◌≡◌, ◌≢◌, refl, ◌⊎◌, inl, inr, none, some, arith}
use ostep_code.Threads.{System, Run}
use ostep_code.Threads.Two.{two-inv, Reaches, starts, first_moves, second_moves}
use ostep_code.Bugs.Atomicity.{
  Memory, Point, lock_1, check, use_info, unlock_1, lock_2, clear, unlock_2, crashed, over, step,
  step_fixed, init, init_fixed,
}

-- In atomicity.c `thread1` can have read through NULL.
pub crash_reached :
    (pid : ℕ)
    → Reaches step (init pid) (record { proc_info = none; proc_info_lock = 1 }) crashed over
unfolding step
crash_reached pid =
    let there : Memory = record { proc_info = some pid; proc_info_lock = 1 } in
    let gone : Memory = record { proc_info = none; proc_info_lock = 1 } in
    let r₁ = first_moves step there (starts step (init pid)) use_info refl in
    let r₂ = second_moves step gone r₁ over refl in first_moves step gone r₂ crashed refl

-- What a thread's place says: the permits it holds.
abbrev holds : Point → ℕ
holds check = 1
holds use_info = 1
holds unlock_1 = 1
holds clear = 1
holds unlock_2 = 1
holds _ = 0

-- `thread1` never crashes, and at its use the pointer is there.
abbrev IsSafe : Memory → Point → Type 0
IsSafe m crashed = ⊥
IsSafe m use_info = m.proc_info ≢ none
IsSafe m clear = ⊥
IsSafe m lock_2 = ⊥
IsSafe m unlock_2 = ⊥
IsSafe m _ = Unit

abbrev IsOther : Point → Type 0
IsOther lock_2 = Unit
IsOther clear = Unit
IsOther unlock_2 = Unit
IsOther over = Unit
IsOther _ = ⊥

record Inv (m : Memory) (p q : Point) : Type 0 where
  permits : m.proc_info_lock + holds p + holds q ≡ 1
  safe : IsSafe m p
  other : IsOther q

first : (m m' : Memory) (p p' q : Point) → Inv m p q → step_fixed m p ≡ some (m', p') → Inv m' p' q
unfolding step_fixed
first m m' lock_1 p' q v e = ground arith
first m m' check p' q v e = ground arith
first m m' use_info p' q v e = ground arith
first m m' unlock_1 p' q v e = ground arith
first m m' lock_2 p' q v e = absurd v.safe
first m m' clear p' q v e = absurd v.safe
first m m' unlock_2 p' q v e = absurd v.safe
first m m' crashed p' q v e = absurd v.safe
first m m' over p' q v e = ground arith

second : (m m' : Memory) (p q q' : Point) → Inv m p q → step_fixed m q ≡ some (m', q') → Inv m' p q'
unfolding step_fixed
second m m' lock_1 q q' v e = ground arith
second m m' check q q' v e = ground arith
second m m' use_info q q' v e = ground arith
second m m' unlock_1 q q' v e = ground arith
second m m' over q q' v e = ground arith
second m m' lock_2 q q' v e = absurd v.safe
second m m' clear q q' v e = absurd v.safe
second m m' unlock_2 q q' v e = absurd v.safe
second m m' crashed q q' v e = absurd v.safe

-- In no state that atomicity_fixed.c reaches has `thread1` read through NULL, and where it is about
-- to read, the pointer is not NULL.
pub fixed_safe :
    (pid : ℕ) {k : ℕ} {s : System Memory Point}
    → Run step_fixed 2 (init_fixed pid) k s
    → (s.pc 0 ≢ crashed) × ((s.pc 0 ≢ use_info) ⊎ (s.mem.proc_info ≢ none))
fixed_safe pid {s = s} r = told (s.pc 0) (two-inv step_fixed Inv first second start r).safe
  where
    start : Inv (init_fixed pid).mem lock_1 lock_2
    start = record { permits = refl; safe = tt; other = tt }

    told :
        (p : Point) → IsSafe s.mem p → (p ≢ crashed) × ((p ≢ use_info) ⊎ (s.mem.proc_info ≢ none))
    told lock_1 v = (λ e. ground arith, inl (λ e. ground arith))
    told check v = (λ e. ground arith, inl (λ e. ground arith))
    told use_info v = (λ e. ground arith, inr v)
    told unlock_1 v = (λ e. ground arith, inl (λ e. ground arith))
    told over v = (λ e. ground arith, inl (λ e. ground arith))
    told lock_2 v = absurd v
    told clear v = absurd v
    told unlock_2 v = absurd v
    told crashed v = absurd v
