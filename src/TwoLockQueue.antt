-- ===== src/TwoLockQueue.antt =====
-- threads-locks/locked data structures/queue.cpp: Michael and Scott's queue with a dummy node.
-- `Queue_Enqueue` runs under `tail_lock`, `Queue_Dequeue` under `head_lock`; the model takes the
-- calls one after the other.
pub mod Laws
mod Tests
use ostep_code.Prelude.{
  ℕ, suc, zero, Bool, true, false, Option, none, some, if◌then◌else◌, ℤ, List, [], ◌∷◌, ◌++◌,
}
use ostep_code.Heap.{
  Outcome, done, fault, timeout, Ptr, Node, Heap, alloc, load, free, set_next, ◌>>=◌,
}

-- `queue_t`: the addresses in `head` and `tail`, which are never null.
pub record Queue : Type 0 where
  pub head : ℕ
  pub tail : ℕ

-- `Queue_Init`: the dummy node's value is not set, `junk` is what stands there.
abbrev pub queue_init : Heap ℤ → ℤ → Heap ℤ × Queue
queue_init h junk =
    (alloc h (record { value = junk; next = none }), record { head = h.fresh; tail = h.fresh })

-- `malloc_ok` is whether `malloc` gives a node; without one the `assert` ends the program.
unfoldable pub queue_enqueue : Bool → Heap ℤ → Queue → ℤ → Outcome (Heap ℤ × Queue)
queue_enqueue false h q value = fault
queue_enqueue true h q value = do
  h' ← set_next (alloc h (record { value = value; next = none })) q.tail (some h.fresh)
  done (h', record q { tail = h.fresh })

-- The value is `none` for the return of -1, where `*value` is not written.
unfoldable pub queue_dequeue : Heap ℤ → Queue → Outcome (Heap ℤ × Queue × Option ℤ)
queue_dequeue h q = do
  tmp ← load h (some q.head)
  elim tmp.next [
    | none ↦ done (h, q, none)
    | some new_head ↦ do
      n ← load h (some new_head)
      h' ← free h (some q.head)
      done (h', record q { head = new_head }, some n.value)
  ]

-- A client's calls, with what `malloc` does in an enqueue, and what the dequeues return.
pub data Call : Type 0 where
  enqueue : Bool → ℤ → Call
  dequeue : Call

pub run : Heap ℤ → Queue → List Call → Outcome (List (Option ℤ))
run h q [] = done []
run h q (enqueue malloc_ok v ∷ calls) = do (h', q') ← queue_enqueue malloc_ok h q v; run h' q' calls
run h q (dequeue ∷ calls) = do
  (h', q', out) ← queue_dequeue h q
  outs ← run h' q' calls
  done (out ∷ outs)
