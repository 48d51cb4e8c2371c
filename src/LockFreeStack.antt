-- ===== src/LockFreeStack.antt =====
-- threads-locks/atomic-tutorial/compare-and-exchange.cpp: class LFS, a stack of nodes.
-- The calls come one after the other; a list of Booleans says of each round of a loop whether
-- `compare_exchange_weak` may succeed there, since it may fail spuriously. A call that is not
-- through at the end of the list has timed out.
pub mod Laws
mod Tests
use ostep_code.Prelude.{
  ℕ, Bool, true, false, ◌&&◌, Option, none, some, if◌then◌else◌, ℤ, pos, List, [], ◌∷◌, ◌==◌,
}
use ostep_code.Heap.{
  Outcome, done, fault, timeout, Ptr, Node, Heap, empty_heap, alloc, load, free, set_next, ◌>>=◌,
}

-- The heap and `_head`.
pub record Lfs : Type 0 where
  pub heap : Heap ℤ
  pub head : Ptr

abbrev pub empty_stack : Lfs
empty_stack = record { heap = empty_heap; head = none }

abbrev pub same_ptr : Ptr → Ptr → Bool
same_ptr none none = true
same_ptr none (some q) = false
same_ptr (some p) none = false
same_ptr (some p) (some q) = p == q

-- The loop of `push`. A failed exchange loads `_head` into `new_node->next`.
unfoldable pub push_loop : List Bool → Lfs → ℕ → Outcome Lfs
push_loop [] s new_node = timeout
push_loop (cas ∷ rest) s new_node = do
  n ← load s.heap (some new_node)
  reloaded ← set_next s.heap new_node s.head
  let again = push_loop rest (record s { heap = reloaded }) new_node
  if cas && same_ptr n.next s.head then done (record s { head = some new_node }) else again

unfoldable pub push : List Bool → Lfs → ℤ → Outcome Lfs
push rounds s val =
    let new_node = s.heap.fresh in
    let made = alloc s.heap (record { value = val; next = none }) in
    do h ← set_next made new_node s.head; push_loop rounds (record s { heap = h }) new_node

-- The loop of `pop`, from the node `got` on. On an empty stack it returns false, that is 0.
unfoldable pub pop_loop : List Bool → Lfs → Ptr → Outcome (Lfs × ℤ)
pop_loop [] s got = timeout
pop_loop (cas ∷ rest) s none = done (s, pos 0)
pop_loop (cas ∷ rest) s (some p) = do
  n ← load s.heap (some p)
  let again = pop_loop rest s s.head
  let popped = (do h ← free s.heap (some p); done (record { heap = h; head = n.next }, n.value))
  if cas && same_ptr (some p) s.head then popped else again

unfoldable pub pop : List Bool → Lfs → Outcome (Lfs × ℤ)
pop rounds s = pop_loop rounds s s.head
