-- ===== src/HashMap/Laws.antt =====
-- The hash map against the collection of the keys that were inserted.
use ostep_code.Prelude.{
  ℕ, ◌≤◌, ◌<◌, ◌≡◌, refl, ap, ◌∙◌, subst, List, [], ◌∷◌, length, ◌≢◌, arith, if◌then◌else◌, ◌==◌, ℤ,
  eq_ℤ, eq_ℤ_iff, Bool-cases, inl, inr, ℕ_discrete,
}
use ostep_code.Heap.{done, Heap, IsTidy}
use ostep_code.LinkedList.{LinkedList, insert}
use ostep_code.LinkedList.Laws.{has, Holds, insert-Holds, look_up-has, insert-Holds_other}
use ostep_code.HashMap.{HashMap, empty_map, index, insert_value, look_up_value, put_list}

-- The keys of one bucket, in the order of the list.
pub bucket : ℕ → List ℤ → List ℤ
bucket i [] = []
bucket i (x ∷ keys) = let rest = bucket i keys in if index x == i then x ∷ rest else rest

length-bucket : (i : ℕ) (keys : List ℤ) → length (bucket i keys) ≤ length keys
unfolding bucket
length-bucket i [] = omega arith
length-bucket i (x ∷ keys) = ground (arith, length-bucket i keys)

-- A key stands in its own bucket.
has-bucket : (keys : List ℤ) (key : ℤ) → has (bucket (index key) keys) key ≡ has keys key
unfolding bucket has
has-bucket [] key = refl
has-bucket (x ∷ keys) key = elim (Bool-cases (eq_ℤ x key)) [
  | inl same ↦ let e : x ≡ key = (eq_ℤ_iff x key).0 same in ground (arith, ap index e)
  | inr other ↦ ground (arith, has-bucket keys key)
]

-- Each list of the map holds the keys of its bucket.
abbrev pub Stores : Heap ℤ → HashMap → List ℤ → Type 0
Stores h m keys = (i : ℕ) → Holds h (m.lists i) (bucket i keys)

empty-Stores : (h : Heap ℤ) → IsTidy h → Stores h empty_map []
unfolding bucket
empty-Stores h t i = (t, refl)

put_list_self : (lists : ℕ → LinkedList) (i : ℕ) (l : LinkedList) → put_list lists i l i ≡ l
put_list_self lists i l = ground arith

put_list_ne :
    (lists : ℕ → LinkedList) (i j : ℕ) (l : LinkedList) → i ≢ j → put_list lists i l j ≡ lists j
put_list_ne lists i j l h = ground arith

bucket-cons_self : (x : ℤ) (keys : List ℤ) → bucket (index x) (x ∷ keys) ≡ x ∷ bucket (index x) keys
unfolding bucket
bucket-cons_self x keys = ground arith

bucket-cons_ne : (x : ℤ) (keys : List ℤ) (i : ℕ) → index x ≢ i → bucket i (x ∷ keys) ≡ bucket i keys
unfolding bucket
bucket-cons_ne x keys i h = ground arith

-- `Insert` keeps every list, and adds the value to its own.
insert_value-Stores :
    (h : Heap ℤ) (m : HashMap) (keys : List ℤ) (value : ℤ)
    → Stores h m keys
    → let (h', m') = insert_value h m value in Stores h' m' (value ∷ keys)
unfolding insert_value
insert_value-Stores h m keys value s i = elim (ℕ_discrete (index value) i) [
  | yes same ↦
      subst (λ j. Holds after (put_list m.lists (index value) l j) (bucket j (value ∷ keys))) same
        (rw (put_list_self m.lists (index value) l, bucket-cons_self value keys)
          (insert-Holds h (m.lists (index value)) (bucket (index value) keys) value
            (s (index value))))
  | no other ↦
      rw (put_list_ne m.lists (index value) i l other, bucket-cons_ne value keys i other)
        (insert-Holds_other h (m.lists (index value)) (m.lists i) (bucket i keys) value (s i))
]
  where
    after : Heap ℤ
    after = (insert h (m.lists (index value)) value).0

    l : LinkedList
    l = (insert h (m.lists (index value)) value).1

-- Insertions, the last one first.
pub insert_all : List ℤ → Heap ℤ × HashMap → Heap ℤ × HashMap
insert_all [] s = s
insert_all (x ∷ keys) s = let (h, m) = insert_all keys s in insert_value h m x

insert_all-Stores :
    (keys : List ℤ) (h : Heap ℤ)
    → IsTidy h
    → let (h', m) = insert_all keys (h, empty_map) in Stores h' m keys
unfolding insert_all
insert_all-Stores [] h t = empty-Stores h t
insert_all-Stores (x ∷ keys) h t =
    let before = insert_all keys (h, empty_map) in
    insert_value-Stores before.0 before.1 keys x (insert_all-Stores keys h t)

-- After any insertions into a new map, `Lookup` finds a value exactly if it was inserted.
pub look_up_value-insert_all :
    (fuel : ℕ) (keys : List ℤ) (h : Heap ℤ) (value : ℤ)
    → IsTidy h
    → length keys < fuel
    → let (h', m) = insert_all keys (h, empty_map) in
      look_up_value fuel h' m value ≡ done (has keys value)
unfolding look_up_value
look_up_value-insert_all fuel keys h value t lt =
    look_up-has fuel _ _ (bucket (index value) keys) value
      (omega (arith, length-bucket (index value) keys)) (insert_all-Stores keys h t (index value))
    ∙ ap done (has-bucket keys value)
