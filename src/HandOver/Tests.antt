-- ===== src/HandOver/Tests.antt =====
-- A schedule of the hand-over, in which the receiver sleeps first.
use ostep_code.Prelude.{ℕ, ◌≡◌, refl, List, [], ◌∷◌, ℕ_discrete}
use ostep_code.Threads.{System, follow, follow-Reach}
use ostep_code.HandOver.{Memory, Point, over, step_cond, init_cond}
use ostep_code.HandOver.Laws.{cond_handed}

abbrev late : List ℕ
late = 0 ∷ 0 ∷ 0 ∷ 1 ∷ 1 ∷ 1 ∷ 1 ∷ 0 ∷ 0 ∷ 0 ∷ 0 ∷ 0 ∷ []

abbrev handed : System Memory Point
handed = follow step_cond 2 late init_cond

cond_handed_run :
    (handed.pc 0 ≡ over) × (handed.pc 1 ≡ over) × (handed.mem.my_vec ≡ 0 ∷ 1 ∷ 2 ∷ 3 ∷ [])
unfolding follow step_cond ℕ_discrete
cond_handed_run = cond_handed (follow-Reach step_cond 2 late init_cond).run refl refl
