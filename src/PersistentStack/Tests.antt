-- ===== src/PersistentStack/Tests.antt =====
-- The example at the top of pstack.c, and a file of four slots.
use ostep_code.Prelude.{◌≡◌, refl, ℤ, pos, List, [], ◌∷◌, arith, ℕ_discrete}
use ostep_code.PersistentStack.{File, pop, push, step, main}
use ostep_code.PersistentStack.Laws.{IsStack, push_then_pop, backwards, items, main-push_then_pop}

abbrev file_page : File
file_page = record { n = 0; stack = λ i. pos 0; file_size = 4096 }

main_example :
    (main file_page (push (pos 7) ∷ push (pos 13) ∷ push (pos 47) ∷ pop ∷ [])).1 ≡ pos 47 ∷ []
unfolding main step ℕ_discrete
main_example = refl

file_page-IsStack : IsStack file_page
file_page-IsStack = record { has_header = omega arith; mapped = omega arith; fits = omega arith }

abbrev values : List ℤ
values = pos 7 ∷ pos 13 ∷ []

main-push_then_pop_example :
    ((main file_page (push_then_pop values)).1 ≡ backwards values)
    × (items
          ((main file_page (push_then_pop values)).0.stack)
          ((main file_page (push_then_pop values)).0.n)
        ≡ items file_page.stack 0)
main-push_then_pop_example = main-push_then_pop values file_page file_page-IsStack (omega arith)
