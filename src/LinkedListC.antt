-- ===== src/LinkedListC.antt =====
-- threads-locks/Locked data structures/linkedlist-c.cpp: the list with `malloc`, which may fail.
pub mod Laws
use ostep_code.Prelude.{
  ℕ, suc, zero, Bool, true, false, Option, none, some, if◌then◌else◌, ℤ, pos, negsuc, eq_ℤ,
}
use ostep_code.Heap.{Outcome, done, fault, timeout, Ptr, Node, Heap, alloc, load, ◌>>=◌}

-- `list_t`; every access of `head` stands between lock and unlock of `lock`.
pub record ListT : Type 0 where
  pub head : Ptr

-- `List_Init`
abbrev pub list_init : ListT
list_init = record { head = none }

-- `malloc_ok` is whether `malloc` gives a node.
unfoldable pub list_insert : Bool → Heap ℤ → ListT → ℤ → Heap ℤ × ListT
list_insert malloc_ok h l key =
    if malloc_ok
    then (alloc h (record { value = key; next = l.head }), record l { head = some h.fresh })
    else (h, l)

-- The loop of `List_Lookup`, from `curr` on: 0 if the key is found, else -1.
pub list_look_from : ℕ → Heap ℤ → Ptr → ℤ → Outcome ℤ
list_look_from zero h curr key = timeout
list_look_from (suc fuel) h none key = done (negsuc 0)
list_look_from (suc fuel) h (some a) key = do
  n ← load h (some a)
  let rest = list_look_from fuel h n.next key
  if eq_ℤ n.value key then done (pos 0) else rest

unfoldable pub list_lookup : ℕ → Heap ℤ → ListT → ℤ → Outcome ℤ
unfolding list_look_from
list_lookup fuel h l key = list_look_from fuel h l.head key
