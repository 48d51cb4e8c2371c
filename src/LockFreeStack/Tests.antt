-- ===== src/LockFreeStack/Tests.antt =====
-- Calls on the stack, and the theorem at them.
use ostep_code.Prelude.{◌≡◌, refl, true, false, List, [], ◌∷◌, pos, ℕ_discrete}
use ostep_code.Heap.{done}
use ostep_code.LockFreeStack.{empty_stack, push, push_loop, pop, pop_loop}
use ostep_code.LockFreeStack.Laws.{
  Call, pushing, popping, run, lifo, stack_refines, empty_stack-Holds,
}

abbrev some_calls : List Call
some_calls =
    pushing (false ∷ true ∷ []) (pos 4)
    ∷ pushing (true ∷ []) (pos 5)
    ∷ popping (false ∷ true ∷ [])
    ∷ popping (true ∷ [])
    ∷ popping (true ∷ [])
    ∷ []

some_calls_run : run empty_stack some_calls ≡ done (pos 5 ∷ pos 4 ∷ pos 0 ∷ [])
unfolding run push push_loop pop pop_loop ℕ_discrete
some_calls_run = refl

stack_refines_example : run empty_stack some_calls ≡ done (lifo [] some_calls)
stack_refines_example =
    stack_refines some_calls empty_stack [] empty_stack-Holds (tt, (tt, (tt, (tt, (tt, tt)))))
