-- ===== src/HashMapC/Tests.antt =====
-- Keys of hashmap-c.cpp: one that is served, and one that is not.
use ostep_code.Prelude.{◌≡◌, ◌↔◌, refl, true, [], ◌∷◌, arith, ℤ, pos, negsuc}
use ostep_code.Heap.{done, fault, Heap, empty_heap}
use ostep_code.LinkedListC.{list_insert}
use ostep_code.LinkedListC.Laws.{found}
use ostep_code.HashMapC.{HashT, hash_init, hash_insert, hash_lookup, put_list}
use ostep_code.HashMapC.Laws.{
  IsOutside, Stores, hash_insert_faults, hash_init-Stores, hash_insert-Stores, hash_lookup-found,
}

hash_insert_faults_example :
    (hash_insert true empty_heap hash_init (negsuc 4) ≡ fault) ↔ IsOutside (negsuc 4)
hash_insert_faults_example = hash_insert_faults true empty_heap hash_init (negsuc 4)

abbrev after : Heap ℤ × HashT
after =
    let (h, l) = list_insert true empty_heap (hash_init.lists 5) (pos 106) in
    (h, record { lists = put_list hash_init.lists 5 l })

stored : Stores after.0 after.1 (pos 106 ∷ [])
unfolding hash_insert
stored =
    hash_insert-Stores true empty_heap hash_init [] (pos 106) {h' = after.0} {m' = after.1}
      (hash_init-Stores empty_heap (λ p lt. refl)) refl

hash_insert-Stores_run : Stores after.0 after.1 (pos 106 ∷ [])
unfolding hash_insert
hash_insert-Stores_run =
    hash_insert-Stores true empty_heap hash_init [] (pos 106) {h' = after.0} {m' = after.1}
      (hash_init-Stores empty_heap (λ p lt. refl)) refl

hash_lookup-found_run :
    hash_lookup 9 after.0 after.1 (pos 106) ≡ done (found (pos 106 ∷ []) (pos 106))
hash_lookup-found_run =
    hash_lookup-found 9 after.0 after.1 (pos 106 ∷ []) (pos 106) {i = 5} refl (omega arith) stored
