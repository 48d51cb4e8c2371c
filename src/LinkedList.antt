-- ===== src/LinkedList.antt =====
-- threads-locks/Locked data structures/linkedlist&hash-map-cpp/linkedlist.{hpp,cpp}: a list with
-- insertion at the head. Every access of `head_` stands under `mutex_`, so calls are one after the
-- other; the printing is left out.
pub mod Laws
mod Tests
use ostep_code.Prelude.{
  ℕ, suc, zero, ◌≡◌, Bool, true, false, Option, none, some, if◌then◌else◌, ℤ, eq_ℤ,
}
use ostep_code.Heap.{Outcome, done, fault, timeout, Ptr, Node, Heap, alloc, load, free, ◌>>=◌}

-- `node_t` is a `Node ℤ` with the key for its value. The list object holds `head_`.
pub record LinkedList : Type 0 where
  pub head : Ptr

abbrev pub empty_list : LinkedList
empty_list = record { head = none }

-- The node is made with a null `next`, which the critical section replaces. `new` that fails
-- throws, so its result is never null.
unfoldable pub insert : Heap ℤ → LinkedList → ℤ → Heap ℤ × LinkedList
insert h l key = (alloc h (record { value = key; next = l.head }), record l { head = some h.fresh })

-- The loop of `LookUp`, from `curr` on.
pub look_from : ℕ → Heap ℤ → Ptr → ℤ → Outcome Bool
look_from zero h curr key = timeout
look_from (suc fuel) h none key = done false
look_from (suc fuel) h (some a) key = do
  n ← load h (some a)
  let rest = look_from fuel h n.next key
  if eq_ℤ n.value key then done true else rest

unfoldable pub look_up : ℕ → Heap ℤ → LinkedList → ℤ → Outcome Bool
unfolding look_from
look_up fuel h l key = look_from fuel h l.head key

-- The loop of `~LinkedList`: it steps to the next node, and deletes that node.
pub destroy_from : ℕ → Heap ℤ → Ptr → Outcome (Heap ℤ)
destroy_from zero h curr = timeout
destroy_from (suc fuel) h none = done h
destroy_from (suc fuel) h (some a) = do
  n ← load h (some a)
  h' ← free h n.next
  destroy_from fuel h' n.next

unfoldable pub destroy : ℕ → Heap ℤ → LinkedList → Outcome (Heap ℤ)
unfolding destroy_from
destroy fuel h l = destroy_from fuel h l.head
