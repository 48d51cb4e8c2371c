-- ===== src/Semaphores/Tests.antt =====
-- Schedules of the programs, and the theorems at them.
use ostep_code.Prelude.{
  ℕ, zero, suc, ◌+◌, ◌*◌, ◌≤◌, ◌<◌, ◌≡◌, refl, none, List, [], ◌∷◌, ◌++◌, ℕ_discrete, arith,
}
use ostep_code.Threads.{System, total, Reach, follow, follow-Reach}
use ostep_code.Threads.Two.{of_two}
use ostep_code.Semaphores.Binary as Binary
use ostep_code.Semaphores.Binary.Laws.{binary_ends}
use ostep_code.Semaphores.Barrier as Barrier
use ostep_code.Semaphores.Barrier.Steps.{uncounted}
use ostep_code.Semaphores.Barrier.Laws.{barrier_safe, barrier_complete}
use ostep_code.Semaphores.NoStarve as NoStarve
use ostep_code.Semaphores.NoStarve.Laws.{inside, acquire_safe}
use ostep_code.Semaphores.Zem as Zem
use ostep_code.Semaphores.Zem.Laws.{calling, Fresh, zem_refines}
use ostep_code.Semaphores.Dining as Dining
use ostep_code.Semaphores.Dining.Laws.{dining_complete}
use ostep_code.Semaphores.Dining.Print as Print
use ostep_code.Semaphores.Dining.Print.Laws.{print_complete}

-- Threads 0 and 1 in turn.
abbrev four : List ℕ
four = 0 ∷ 1 ∷ 0 ∷ 1 ∷ []

abbrev turns : List ℕ
turns = four ++ four ++ four ++ four ++ four ++ four ++ four ++ four ++ four ++ four ++ four

abbrev counted_up : System Binary.Memory Binary.Point
counted_up = follow (Binary.step 1) 2 turns Binary.init

binary_ends_example :
    (counted_up.mem.counter ≡ 2 * 1)
    × ((follow-Reach (Binary.step 1) 2 turns Binary.init).steps ≤ 10 * 1 + 2)
unfolding follow Binary.step ℕ_discrete
binary_ends_example = binary_ends 1 (follow-Reach (Binary.step 1) 2 turns Binary.init).run refl refl

abbrev passed_by : System Barrier.Barrier Barrier.Point
passed_by = follow Barrier.step 2 turns (Barrier.init 2)

barrier_safe_example : uncounted (passed_by.pc 1) ≡ 0
unfolding follow Barrier.step ℕ_discrete
barrier_safe_example =
    barrier_safe (follow-Reach Barrier.step 2 turns (Barrier.init 2)).run 0 1 (omega arith)
      (omega arith) (omega arith)

barrier_complete_example :
    ((follow-Reach Barrier.step 2 turns (Barrier.init 2)).steps ≤ 13 * 2)
    × ((i : ℕ) → i < 2 → passed_by.pc i ≡ Barrier.over)
unfolding follow Barrier.step ℕ_discrete
barrier_complete_example =
    barrier_complete (follow-Reach Barrier.step 2 turns (Barrier.init 2)).run
      (of_two (λ i. Barrier.step passed_by.mem (passed_by.pc i) ≡ none) refl refl)

abbrev let_in : System NoStarve.NsMutex NoStarve.Point
let_in = follow NoStarve.step 2 turns (NoStarve.init 0)

acquire_safe_example : total inside 2 let_in.pc ≤ 1 + 0
acquire_safe_example = acquire_safe (follow-Reach NoStarve.step 2 turns (NoStarve.init 0)).run

-- One thread waits and one posts.
abbrev calls : ℕ → Zem.Point
calls zero = Zem.zem_test
calls (suc i) = Zem.zem_post

calls-Fresh : (i : ℕ) → Fresh (calls i)
calls-Fresh zero = tt
calls-Fresh (suc i) = tt

abbrev woken : System Zem.Zem Zem.Point
woken = follow Zem.step_zem 2 turns (Zem.init_zem 0 calls)

zem_refines_example :
    Reach Zem.step_sema 2
      (Zem.init_sema 0 (λ i. calling (calls i)))
      (record { mem = woken.mem.value; pc = λ i. calling (woken.pc i) })
zem_refines_example =
    zem_refines 2 0 calls calls-Fresh (follow-Reach Zem.step_zem 2 turns (Zem.init_zem 0 calls)).run

abbrev eight : ℕ → List ℕ
eight i = i ∷ i ∷ i ∷ i ∷ i ∷ i ∷ i ∷ i ∷ []

abbrev meals : List ℕ
meals = eight 0 ++ eight 1 ++ eight 2 ++ eight 3 ++ eight 4

abbrev fed : System Dining.Forks Dining.Seat
fed = follow (Dining.step 1) 5 meals Dining.init

all_blocked : (i : ℕ) → i < 5 → Dining.step 1 fed.mem (fed.pc i) ≡ none
unfolding follow Dining.move Dining.first_fork Dining.second_fork ℕ_discrete
all_blocked zero h = refl
all_blocked (suc zero) h = refl
all_blocked (suc (suc zero)) h = refl
all_blocked (suc (suc (suc zero))) h = refl
all_blocked (suc (suc (suc (suc zero)))) h = refl
all_blocked (suc (suc (suc (suc (suc i))))) h = absurd (omega arith)

dining_complete_example :
    ((follow-Reach (Dining.step 1) 5 meals Dining.init).steps ≤ 5 * (8 * 1 + 1))
    × ((i : ℕ) → i < 5 → (fed.pc i).at ≡ Dining.over)
dining_complete_example =
    dining_complete 1 (follow-Reach (Dining.step 1) 5 meals Dining.init).run all_blocked

abbrev twenty : ℕ → List ℕ
twenty i = eight i ++ eight i ++ (i ∷ i ∷ i ∷ i ∷ [])

abbrev talks : List ℕ
talks = twenty 0 ++ twenty 1 ++ twenty 2 ++ twenty 3 ++ twenty 4

-- Each philosopher eats once, with its twenty steps in a row.
abbrev told : System Print.Memory Print.Talker
told = follow (Print.step_print 1) 5 talks Print.init_print

all_told : (i : ℕ) → i < 5 → Print.step_print 1 told.mem (told.pc i) ≡ none
unfolding follow Print.talk Print.first_try Print.second_try ℕ_discrete
all_told zero h = refl
all_told (suc zero) h = refl
all_told (suc (suc zero)) h = refl
all_told (suc (suc (suc zero))) h = refl
all_told (suc (suc (suc (suc zero)))) h = refl
all_told (suc (suc (suc (suc (suc i))))) h = absurd (omega arith)

print_complete_example :
    ((follow-Reach (Print.step_print 1) 5 talks Print.init_print).steps ≤ 5 * (17 * 1 + 3))
    × ((i : ℕ) → i < 5 → (told.pc i).at ≡ Print.over)
print_complete_example =
    print_complete 1 (follow-Reach (Print.step_print 1) 5 talks Print.init_print).run all_told
