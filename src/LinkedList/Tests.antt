-- ===== src/LinkedList/Tests.antt =====
-- The list of the commented `main` of linkedlist.cpp, and the theorems at it.
use ostep_code.Prelude.{◌≡◌, refl, true, [], ◌∷◌, arith, ℤ, pos, ℕ_discrete}
use ostep_code.Heap.{done, fault, Heap, empty_heap}
use ostep_code.LinkedList.{LinkedList, empty_list, insert, look_up, destroy}
use ostep_code.LinkedList.Laws.{Holds, insert-Holds, look_up-has, has, destroy_lem}

abbrev one : Heap ℤ × LinkedList
one = insert empty_heap empty_list (pos 1)

abbrev two : Heap ℤ × LinkedList
two = insert one.0 one.1 (pos 2)

one-Holds : Holds one.0 one.1 (pos 1 ∷ [])
one-Holds = insert-Holds empty_heap empty_list [] (pos 1) (λ p lt. refl, refl)

two-Holds : Holds two.0 two.1 (pos 2 ∷ pos 1 ∷ [])
two-Holds = insert-Holds one.0 one.1 (pos 1 ∷ []) (pos 2) one-Holds

look_up_runs : look_up 9 two.0 two.1 (pos 1) ≡ done true
unfolding look_up insert ℕ_discrete
look_up_runs = refl

look_up-has_example : look_up 9 two.0 two.1 (pos 1) ≡ done (has (pos 2 ∷ pos 1 ∷ []) (pos 1))
look_up-has_example = look_up-has 9 two.0 two.1 (pos 2 ∷ pos 1 ∷ []) (pos 1) (omega arith) two-Holds

destroy_lem_run : destroy 9 two.0 two.1 ≡ fault
destroy_lem_run = destroy_lem 7 two.0 two.1 (pos 2 ∷ pos 1 ∷ []) two-Holds
