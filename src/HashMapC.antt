-- ===== src/HashMapC.antt =====
-- threads-locks/Locked data structures/hashmap-c.cpp: the hash map over the lists of
-- linkedlist-c.cpp, whose bucket is the C remainder of the key.
pub mod Laws
mod Tests
use ostep_code.Prelude.{
  ℕ, suc, ◌%◌, ◌-◌, Bool, Option, none, some, ◌==◌, if◌then◌else◌, ℤ, pos, negsuc, ite, ℕ_discrete,
  ltb,
}
use ostep_code.Heap.{Outcome, done, fault, Heap}
use ostep_code.LinkedListC.{ListT, list_init, list_insert, list_lookup}

-- `BUCKETS`, the modulus, and the length of the array `lists`, which has it as its bound.
abbrev pub buckets : ℕ
buckets = 101

abbrev pub list_count : ℕ
list_count = buckets

-- `a % b` in C: the quotient is cut off towards zero, so the remainder has the sign of `a`.
abbrev pub remainder : ℤ → ℕ → ℤ
remainder (pos n) b = pos (n % b)
remainder (negsuc n) b = let r = suc n % b in if r == 0 then pos 0 else negsuc (r - 1)

-- The element of an array of `count` elements that an index names; `none` is out of bounds.
abbrev pub element : ℕ → ℤ → Option ℕ
element count (pos i) = if ltb i count then some i else none
element count (negsuc i) = none

-- `H->lists[key % BUCKETS]`
abbrev pub bucket_of : ℤ → Option ℕ
bucket_of key = element list_count (remainder key buckets)

-- `hash_t`: the array `lists`.
pub record HashT : Type 0 where
  pub lists : ℕ → ListT

-- `Hash_Init` initialises every list.
abbrev pub hash_init : HashT
hash_init = record { lists = λ i. list_init }

abbrev pub put_list : (ℕ → ListT) → ℕ → ListT → ℕ → ListT
put_list lists i l j = ite (ℕ_discrete i j) l (lists j)

unfoldable pub hash_insert : Bool → Heap ℤ → HashT → ℤ → Outcome (Heap ℤ × HashT)
hash_insert malloc_ok h m key = elim (bucket_of key) [
  | none ↦ fault
  | some i ↦
      let (h', l) = list_insert malloc_ok h (m.lists i) key in
      done (h', record m { lists = put_list m.lists i l })
]

unfoldable pub hash_lookup : ℕ → Heap ℤ → HashT → ℤ → Outcome ℤ
hash_lookup fuel h m key = elim (bucket_of key) [
  | none ↦ fault
  | some i ↦ list_lookup fuel h (m.lists i) key
]
