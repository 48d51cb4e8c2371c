-- ===== src/LinkedListC/Laws.antt =====
-- Theorems about List_Insert and List_Lookup.
use ostep_code.Prelude.{
  ℕ, suc, zero, ◌<◌, ◌≡◌, refl, Bool, true, false, List, [], ◌∷◌, length, arith, if◌then◌else◌, ℤ,
  pos, negsuc,
}
use ostep_code.Heap.{done, Ptr, Node, Heap, IsTidy, Chain, alloc-IsTidy, alloc-Chain}
use ostep_code.LinkedList.Laws.{has}
use ostep_code.LinkedListC.{ListT, list_insert, list_look_from, list_lookup}

abbrev pub Holds : Heap ℤ → ListT → List ℤ → Type 0
Holds h l keys = IsTidy h × Chain h l.head keys

-- The keys after an insertion.
abbrev pub inserted : Bool → ℤ → List ℤ → List ℤ
inserted malloc_ok key keys = if malloc_ok then key ∷ keys else keys

-- An insertion adds the key if `malloc` gives a node, and changes nothing otherwise.
pub list_insert-Holds :
    (malloc_ok : Bool) (h : Heap ℤ) (l : ListT) (keys : List ℤ) (key : ℤ)
    → Holds h l keys
    → let (h', l') = list_insert malloc_ok h l key in Holds h' l' (inserted malloc_ok key keys)
unfolding list_insert
list_insert-Holds false h l keys key c = c
list_insert-Holds true h l keys key (t, c) =
    (alloc-IsTidy h n t, (h.fresh, l.head, refl, ground arith, alloc-Chain h n l.head keys t c))
  where
    n : Node ℤ
    n = record { value = key; next = l.head }

-- An insertion leaves the other lists on the heap as they are.
pub list_insert-Holds_other :
    (malloc_ok : Bool) (h : Heap ℤ) (l other : ListT) (keys : List ℤ) (key : ℤ)
    → Holds h other keys
    → Holds (list_insert malloc_ok h l key).0 other keys
unfolding list_insert
list_insert-Holds_other false h l other keys key c = c
list_insert-Holds_other true h l other keys key (t, c) =
    (alloc-IsTidy h _ t, alloc-Chain h _ other.head keys t c)

-- The result of a lookup among the keys.
abbrev pub found : List ℤ → ℤ → ℤ
found keys key = if has keys key then pos 0 else negsuc 0

list_look_from-found :
    (fuel : ℕ) (h : Heap ℤ) (p : Ptr) (keys : List ℤ) (key : ℤ)
    → length keys < fuel
    → Chain h p keys
    → list_look_from fuel h p key ≡ done (found keys key)
unfolding list_look_from has
list_look_from-found zero h p keys key lt c = elim lt [ ]
list_look_from-found (suc fuel) h p [] key lt c = rw c
list_look_from-found (suc fuel) h p (x ∷ keys) key lt (a, next, e, at, rest) =
    ground (arith, list_look_from-found fuel h next keys key (omega arith) rest)

-- With fuel for the whole list, `List_Lookup` returns 0 if the key is in the list, and -1 if not.
pub list_lookup-found :
    (fuel : ℕ) (h : Heap ℤ) (l : ListT) (keys : List ℤ) (key : ℤ)
    → length keys < fuel
    → Holds h l keys
    → list_lookup fuel h l key ≡ done (found keys key)
unfolding list_lookup
list_lookup-found fuel h l keys key lt (t, c) = list_look_from-found fuel h l.head keys key lt c
