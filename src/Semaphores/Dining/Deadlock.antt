-- ===== src/Semaphores/Dining/Deadlock.antt =====
-- A schedule of the philosophers that each wait for the left fork first.
use ostep_code.Prelude.{ℕ, zero, suc, ◌<◌, ◌≡◌, refl, none, arith, ℕ_discrete, List, [], ◌∷◌}
use ostep_code.Threads.{System, Reach, follow, follow-Reach}
use ostep_code.Semaphores.Dining.{Forks, move, Seat, get_second, step_deadlock, init}

-- Each philosopher in turn comes to `get_forks` and takes its left fork.
abbrev schedule : List ℕ
schedule = 0 ∷ 0 ∷ 0 ∷ 1 ∷ 1 ∷ 1 ∷ 2 ∷ 2 ∷ 2 ∷ 3 ∷ 3 ∷ 3 ∷ 4 ∷ 4 ∷ 4 ∷ []

abbrev pub standstill : System Forks Seat
standstill = follow (step_deadlock 1) 5 schedule init

pub standstill_reached : Reach (step_deadlock 1) 5 init standstill
standstill_reached = follow-Reach (step_deadlock 1) 5 schedule init

-- No philosopher has a step, and each has one fork in its hand.
pub standstill_stuck :
    (i : ℕ)
    → i < 5
    → (step_deadlock 1 standstill.mem (standstill.pc i) ≡ none)
      × ((standstill.pc i).at ≡ get_second)
unfolding follow move ℕ_discrete
standstill_stuck zero h = (refl, refl)
standstill_stuck (suc zero) h = (refl, refl)
standstill_stuck (suc (suc zero)) h = (refl, refl)
standstill_stuck (suc (suc (suc zero))) h = (refl, refl)
standstill_stuck (suc (suc (suc (suc zero)))) h = (refl, refl)
standstill_stuck (suc (suc (suc (suc (suc i))))) h = absurd (omega arith)
