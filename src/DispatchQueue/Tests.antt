-- ===== src/DispatchQueue/Tests.antt =====
-- A schedule of the dispatch queue, and the theorems at it.
use ostep_code.Prelude.{
  ℕ, zero, suc, ◌+◌, ◌*◌, ◌≤◌, length, ◌<◌, ◌≡◌, refl, true, none, List, [], ◌∷◌, ◌++◌, arith,
  unwind, ℕ_discrete,
}
use ostep_code.Threads.{System, Reach, follow, follow-Reach}
use ostep_code.DispatchQueue.{Memory, Point, dispatch_thread_handler, step, init}
use ostep_code.DispatchQueue.Laws.{started_in_order, through_with, complete_dispatch}

-- The client is thread 0, and dispatches the operations 7 and 8.
abbrev ops : List ℕ
ops = 7 ∷ 8 ∷ []

-- Thread 1 sleeps until the first operation, takes both, sleeps again and is woken at the end.
abbrev whole : List ℕ
whole = 1 ∷ 0 ∷ 1 ∷ 0 ∷ 1 ∷ 1 ∷ 1 ∷ 1 ∷ 1 ∷ 0 ∷ 1 ∷ 1 ∷ []

abbrev after : List ℕ → System Memory Point
after schedule = follow step 2 schedule (init ops)

whole_run : (after whole).mem.started ≡ 8 ∷ 7 ∷ []
unfolding follow step dispatch_thread_handler ℕ_discrete
whole_run = refl

started_in_order_example : (rest : List ℕ) × (unwind (after whole).mem.started [] ++ rest ≡ ops)
started_in_order_example = started_in_order ops (follow-Reach step 2 whole (init ops)).run

whole_stuck : (i : ℕ) → i < 2 → step (after whole).mem ((after whole).pc i) ≡ none
unfolding follow step dispatch_thread_handler ℕ_discrete
whole_stuck zero lt = refl
whole_stuck (suc zero) lt = refl
whole_stuck (suc (suc i)) lt = absurd (omega arith)

abbrev whole_steps : Reach step 2 (init ops) (after whole)
whole_steps = follow-Reach step 2 whole (init ops)

complete_dispatch_example :
    (whole_steps.steps ≤ 6 * length ops + 3 * 2)
    × ((i : ℕ) → i < 2 → through_with ((after whole).pc i) ≡ true)
complete_dispatch_example = complete_dispatch ops whole_steps.run whole_stuck
