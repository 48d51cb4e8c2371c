-- ===== src/OddEven/Tests.antt =====
-- A schedule of the two threads, and the theorems at it.
use ostep_code.Prelude.{ℕ, ◌≡◌, refl, List, [], ◌∷◌, ◌++◌, ℕ_discrete}
use ostep_code.Threads.{System, follow, follow-Reach}
use ostep_code.OddEven.{Memory, Thread, step, init}
use ostep_code.OddEven.Laws.{counted, alternate, all_printed}

-- Thread 1 waits at first.
abbrev half : List ℕ
half = 1 ∷ 0 ∷ 0 ∷ 1 ∷ 0 ∷ 1 ∷ []

abbrev whole : List ℕ
whole = half ++ 0 ∷ 1 ∷ 0 ∷ 1 ∷ 0 ∷ 1 ∷ []

abbrev after : List ℕ → System Memory Thread
after schedule = follow step 2 schedule init

half_run : (after half).mem.printed ≡ 4 ∷ 3 ∷ 2 ∷ 1 ∷ []
unfolding follow step ℕ_discrete
half_run = refl

alternate_run : (after half).mem.printed ≡ counted (after half).mem.counter
alternate_run = alternate (follow-Reach step 2 half init).run

all_printed_run : (after whole).mem.printed ≡ counted 10
unfolding follow step ℕ_discrete
all_printed_run = all_printed (follow-Reach step 2 whole init).run refl refl
