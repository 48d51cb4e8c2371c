-- ===== src/TwoLockQueue/Tests.antt =====
-- Calls on the two-lock queue, and the theorem at them.
use ostep_code.Prelude.{
  ◌≡◌, refl, true, false, if◌then◌else◌, none, some, List, [], ◌∷◌, ℤ, pos, ℕ_discrete,
}
use ostep_code.Heap.{done, fault, Heap, empty_heap}
use ostep_code.TwoLockQueue.{
  Queue, queue_init, queue_enqueue, queue_dequeue, Call, enqueue, dequeue, run,
}
use ostep_code.TwoLockQueue.Laws.{queue_init-Holds, fifo, granted, run_refines}

abbrev calls : List Call
calls =
    enqueue true (pos 1)
    ∷ enqueue true (pos 2)
    ∷ dequeue
    ∷ dequeue
    ∷ dequeue
    ∷ enqueue true (pos 3)
    ∷ dequeue
    ∷ []

abbrev fresh : Heap ℤ × Queue
fresh = queue_init empty_heap (pos 77)

calls_run :
    run fresh.0 fresh.1 calls ≡ done (some (pos 1) ∷ some (pos 2) ∷ none ∷ some (pos 3) ∷ [])
unfolding run queue_enqueue queue_dequeue ℕ_discrete
calls_run = refl

-- A program whose `malloc` gives no node ends at the `assert`.
failing_run : run fresh.0 fresh.1 (enqueue true (pos 1) ∷ enqueue false (pos 2) ∷ []) ≡ fault
unfolding run queue_enqueue ℕ_discrete
failing_run = refl

run_refines_example :
    run fresh.0 fresh.1 calls ≡ (if granted calls then done (fifo [] calls) else fault)
run_refines_example =
    run_refines calls fresh.0 fresh.1 [] (queue_init-Holds empty_heap (pos 77) (λ p lt. refl))
