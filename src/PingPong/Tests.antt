-- ===== src/PingPong/Tests.antt =====
-- The theorem at the program's limit, and a run at a smaller one.
use ostep_code.Prelude.{ℕ, ◌≡◌, refl, none, List, [], ◌∷◌, arith, ℕ_discrete}
use ostep_code.Threads.{System, Run, follow}
use ostep_code.PingPong.{Memory, Point, ping_wait, over, step, init, count_limit}
use ostep_code.PingPong.Laws.{deadlock_reached}

abbrev schedule : List ℕ
schedule = 0 ∷ 0 ∷ 0 ∷ 1 ∷ 1 ∷ 0 ∷ 0 ∷ 0 ∷ 1 ∷ []

schedule_run : (follow (step 2) 2 schedule init).mem.counter ≡ 2
unfolding follow step ℕ_discrete
schedule_run = refl

deadlock_reached_example :
    (k : ℕ) × (s : System Memory Point) × Run (step count_limit) 2 init k s
    × (s.pc 0 ≡ ping_wait)
    × (s.pc 1 ≡ over)
    × (step count_limit s.mem (s.pc 0) ≡ none)
    × (step count_limit s.mem (s.pc 1) ≡ none)
deadlock_reached_example = deadlock_reached count_limit (omega arith)
