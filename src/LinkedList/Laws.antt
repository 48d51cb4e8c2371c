-- ===== src/LinkedList/Laws.antt =====
-- Theorems about Insert, LookUp and the destructor.
use ostep_code.Prelude.{
  ℕ, suc, zero, ◌<◌, ◌≡◌, refl, Bool, true, false, List, [], ◌∷◌, length, arith, if◌then◌else◌, ℤ,
  eq_ℤ,
}
use ostep_code.Heap.{
  Outcome, done, fault, Ptr, Node, Heap, IsTidy, Chain, alloc-IsTidy, alloc-Chain,
}
use ostep_code.LinkedList.{LinkedList, insert, look_from, look_up, destroy}

-- Whether a key is among the keys.
unfoldable pub has : List ℤ → ℤ → Bool
has [] key = false
has (x ∷ xs) key = if eq_ℤ x key then true else has xs key

-- The list object holds the keys, the last inserted first.
abbrev pub Holds : Heap ℤ → LinkedList → List ℤ → Type 0
Holds h l keys = IsTidy h × Chain h l.head keys

pub insert-Holds :
    (h : Heap ℤ) (l : LinkedList) (keys : List ℤ) (key : ℤ)
    → Holds h l keys
    → let (h', l') = insert h l key in Holds h' l' (key ∷ keys)
unfolding insert
insert-Holds h l keys key (t, c) =
    (alloc-IsTidy h n t, (h.fresh, l.head, refl, ground arith, alloc-Chain h n l.head keys t c))
  where
    n : Node ℤ
    n = record { value = key; next = l.head }

-- An insertion leaves the other lists on the heap as they are.
pub insert-Holds_other :
    (h : Heap ℤ) (l other : LinkedList) (keys : List ℤ) (key : ℤ)
    → Holds h other keys
    → Holds (insert h l key).0 other keys
unfolding insert
insert-Holds_other h l other keys key (t, c) =
    (alloc-IsTidy h _ t, alloc-Chain h _ other.head keys t c)

look_from-has :
    (fuel : ℕ) (h : Heap ℤ) (p : Ptr) (keys : List ℤ) (key : ℤ)
    → length keys < fuel
    → Chain h p keys
    → look_from fuel h p key ≡ done (has keys key)
unfolding look_from has
look_from-has zero h p keys key lt c = elim lt [ ]
look_from-has (suc fuel) h p [] key lt c = rw c
look_from-has (suc fuel) h p (x ∷ keys) key lt (a, next, e, at, rest) =
    ground (arith, look_from-has fuel h next keys key (omega arith) rest)

-- With fuel for the whole list, `LookUp` returns whether the key has been inserted.
pub look_up-has :
    (fuel : ℕ) (h : Heap ℤ) (l : LinkedList) (keys : List ℤ) (key : ℤ)
    → length keys < fuel
    → Holds h l keys
    → look_up fuel h l key ≡ done (has keys key)
unfolding look_up
look_up-has fuel h l keys key lt (t, c) = look_from-has fuel h l.head keys key lt c

-- What the destructor comes to on a list of each length.
abbrev pub destroyed : Heap ℤ → List ℤ → Outcome (Heap ℤ)
destroyed h [] = done h
destroyed h (x ∷ []) = done h
destroyed h (x ∷ y ∷ keys) = fault

-- The destructor deletes nothing of a list of one node, and of a longer list it deletes the second
-- node and then reads it.
pub destroy_lem :
    (fuel : ℕ) (h : Heap ℤ) (l : LinkedList) (keys : List ℤ)
    → Holds h l keys
    → destroy (suc (suc fuel)) h l ≡ destroyed h keys
unfolding destroy
destroy_lem fuel h l [] (t, c) = rw c
destroy_lem fuel h l (x ∷ []) (t, (a, next, e, at, c)) = ground arith
destroy_lem fuel h l (x ∷ y ∷ keys) (t, (a, next, e, at, (b, next', e', at', c))) = ground arith
