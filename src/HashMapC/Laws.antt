-- ===== src/HashMapC/Laws.antt =====
-- Which keys the C hash map serves, and what it does with them.
use ostep_code.Prelude.{
  ℕ, suc, ◌%◌, ◌≤◌, ◌<◌, ◌≡◌, ◌≢◌, ◌↔◌, refl, ap, ◌∙◌, subst, Bool, true, false, none, some, List,
  [], ◌∷◌, length, arith, if◌then◌else◌, ◌==◌, ℤ, pos, negsuc, ℕ_discrete, Option-cases, inl, inr,
  eq_ℤ, eq_ℤ_iff, Bool-cases,
}
use ostep_code.Heap.{done, fault, Heap, IsTidy}
use ostep_code.LinkedList.Laws.{has}
use ostep_code.LinkedListC.{ListT, list_insert}
use ostep_code.LinkedListC.Laws.{
  Holds, inserted, found, list_insert-Holds, list_insert-Holds_other, list_lookup-found,
}
use ostep_code.HashMapC.{HashT, hash_init, buckets, bucket_of, put_list, hash_insert, hash_lookup}

-- The keys that the map cannot hold: the negative ones that 101 does not divide.
abbrev pub IsOutside : ℤ → Type 0
IsOutside key = (n : ℕ) × (key ≡ negsuc n) × (suc n % buckets ≢ 0)

-- The remainder of a key that is not negative lies in the array.
bucket_of-pos : (n : ℕ) → bucket_of (pos n) ≡ some (n % buckets)
bucket_of-pos n = ground arith

-- Insertion indexes the array out of bounds exactly for a negative key that is no multiple of 101,
-- whatever the map holds and whether or not `malloc` gives a node; all other keys are served.
pub hash_insert_faults :
    (malloc_ok : Bool) (h : Heap ℤ) (m : HashT) (key : ℤ)
    → (hash_insert malloc_ok h m key ≡ fault) ↔ IsOutside key
unfolding hash_insert
hash_insert_faults malloc_ok h m (pos n) =
    (λ e. absurd (let f = rw (bucket_of-pos n, hash_insert) at e in cc), λ (k, e, ne). cc)
hash_insert_faults malloc_ok h m (negsuc n) =
    (λ e. (n, refl, ground arith), λ (k, e, ne). ground arith)

-- The bucket of a key that has one lies in the array.
pub bucket_of-lt : (key : ℤ) {i : ℕ} → bucket_of key ≡ some i → i < buckets
bucket_of-lt (pos n) e = ground arith
bucket_of-lt (negsuc n) e = ground arith

-- Each list of the array holds the keys of its bucket.
pub bucket : ℕ → List ℤ → List ℤ
bucket i [] = []
bucket i (x ∷ keys) =
    let rest = bucket i keys in
    elim (bucket_of x) [ none ↦ rest | some j ↦ if j == i then x ∷ rest else rest ]

abbrev pub Stores : Heap ℤ → HashT → List ℤ → Type 0
Stores h m keys = (i : ℕ) → Holds h (m.lists i) (bucket i keys)

-- `Hash_Init` gives an empty map.
pub hash_init-Stores : (h : Heap ℤ) → IsTidy h → Stores h hash_init []
unfolding bucket
hash_init-Stores h t i = (t, refl)

bucket-hit :
    (x : ℤ) (keys : List ℤ) (i : ℕ) → bucket_of x ≡ some i → bucket i (x ∷ keys) ≡ x ∷ bucket i keys
unfolding bucket
bucket-hit x keys i e = ground arith

bucket-miss :
    (x : ℤ) (keys : List ℤ) (i j : ℕ)
    → bucket_of x ≡ some i
    → i ≢ j
    → bucket j (x ∷ keys) ≡ bucket j keys
unfolding bucket
bucket-miss x keys i j e ne = ground arith

put_list_self : (lists : ℕ → ListT) (i : ℕ) (l : ListT) → put_list lists i l i ≡ l
put_list_self lists i l = ground arith

put_list_ne : (lists : ℕ → ListT) (i j : ℕ) (l : ListT) → i ≢ j → put_list lists i l j ≡ lists j
put_list_ne lists i j l h = ground arith

list_step :
    (malloc_ok : Bool) (h : Heap ℤ) (m : HashT) (keys : List ℤ) (key : ℤ) (i : ℕ)
    → Stores h m keys
    → bucket_of key ≡ some i
    → (j : ℕ)
    → Holds
        (list_insert malloc_ok h (m.lists i) key).0
        (put_list m.lists i (list_insert malloc_ok h (m.lists i) key).1 j)
        (bucket j (inserted malloc_ok key keys))
list_step false h m keys key i s e j =
    let l = (list_insert false h (m.lists i) key).1 in
    elim (ℕ_discrete i j) [
      | yes same ↦
          subst
            (λ z.
              Holds (list_insert false h (m.lists i) key).0
                (put_list m.lists i (list_insert false h (m.lists i) key).1 z) (bucket z keys))
            same
            (rw (put_list_self m.lists i l)
              (list_insert-Holds false h (m.lists i) (bucket i keys) key (s i)))
      | no other ↦
          rw (put_list_ne m.lists i j l other)
            (list_insert-Holds_other false h (m.lists i) (m.lists j) (bucket j keys) key (s j))
    ]
list_step true h m keys key i s e j =
    let l = (list_insert true h (m.lists i) key).1 in
    elim (ℕ_discrete i j) [
      | yes same ↦
          subst
            (λ z.
              Holds (list_insert true h (m.lists i) key).0
                (put_list m.lists i (list_insert true h (m.lists i) key).1 z)
                (bucket z (key ∷ keys)))
            same
            (rw (put_list_self m.lists i l, bucket-hit key keys i e)
              (list_insert-Holds true h (m.lists i) (bucket i keys) key (s i)))
      | no other ↦
          rw (put_list_ne m.lists i j l other, bucket-miss key keys i j e other)
            (list_insert-Holds_other true h (m.lists i) (m.lists j) (bucket j keys) key (s j))
    ]

-- An insertion that does not fault adds the key if `malloc` gives a node, and changes nothing else.
pub hash_insert-Stores :
    (malloc_ok : Bool) (h : Heap ℤ) (m : HashT) (keys : List ℤ) (key : ℤ) {h' : Heap ℤ} {m' : HashT}
    → Stores h m keys
    → hash_insert malloc_ok h m key ≡ done (h', m')
    → Stores h' m' (inserted malloc_ok key keys)
unfolding hash_insert
hash_insert-Stores malloc_ok h m keys key {h'} {m'} s e = elim (Option-cases (bucket_of key)) [
  | inl none_e ↦ let e' = rw (none_e, hash_insert) at e in cc
  | inr (i, i_e) ↦
      let e' = rw (i_e, hash_insert) at e in
      let p = list_insert malloc_ok h (m.lists i) key in
      let hq : p.0 ≡ h' = cc in
      let mq : record m { lists = put_list m.lists i p.1 } ≡ m' = cc in
      rw (← hq, ← mq) (list_step malloc_ok h m keys key i s i_e)
]

-- A key that has a bucket stands in it.
has-bucket :
    (keys : List ℤ) (key : ℤ) (i : ℕ)
    → bucket_of key ≡ some i
    → has (bucket i keys) key ≡ has keys key
unfolding bucket has
has-bucket [] key i e = refl
has-bucket (x ∷ keys) key i e = elim (Bool-cases (eq_ℤ x key)) [
  | inl same ↦ let q : x ≡ key = (eq_ℤ_iff x key).0 same in ground (arith, ap bucket_of q)
  | inr other ↦ ground (arith, has-bucket keys key i e)
]

length-bucket : (i : ℕ) (keys : List ℤ) → length (bucket i keys) ≤ length keys
unfolding bucket
length-bucket i [] = omega arith
length-bucket i (x ∷ keys) = ground (arith, length-bucket i keys)

-- For a key that has a bucket, lookup returns 0 if the key is stored, and -1 if not.
pub hash_lookup-found :
    (fuel : ℕ) (h : Heap ℤ) (m : HashT) (keys : List ℤ) (key : ℤ) {i : ℕ}
    → bucket_of key ≡ some i
    → length keys < fuel
    → Stores h m keys
    → hash_lookup fuel h m key ≡ done (found keys key)
unfolding hash_lookup
hash_lookup-found fuel h m keys key {i} e lt s =
    rw (e, hash_lookup)
      (list_lookup-found fuel h (m.lists i) (bucket i keys) key
          (omega (arith, length-bucket i keys)) (s i)
        ∙ ap (λ b. done (if b then pos 0 else negsuc 0)) (has-bucket keys key i e))
