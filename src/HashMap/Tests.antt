-- ===== src/HashMap/Tests.antt =====
-- The program of hashmap-cpp.cpp, and the theorem at it.
use ostep_code.Prelude.{◌≡◌, refl, true, List, [], ◌∷◌, arith, ℤ, pos, negsuc, ℕ_discrete}
use ostep_code.Heap.{done, empty_heap}
use ostep_code.LinkedList.{insert, look_up}
use ostep_code.LinkedList.Laws.{has}
use ostep_code.HashMap.{empty_map, insert_value, look_up_value}
use ostep_code.HashMap.Laws.{insert_all, look_up_value-insert_all}

-- `map.Insert(1); map.Lookup(1)`
main_finds :
    let (h, m) = insert_value empty_heap empty_map (pos 1) in
    look_up_value 9 h m (pos 1) ≡ done true
unfolding insert_value look_up_value insert look_up ℕ_discrete
main_finds = refl

-- 1, 102 and -1 share a bucket.
abbrev keys : List ℤ
keys = pos 1 ∷ pos 102 ∷ negsuc 0 ∷ []

look_up_value-insert_all_example :
    let (h, m) = insert_all keys (empty_heap, empty_map) in
    look_up_value 9 h m (pos 102) ≡ done (has keys (pos 102))
look_up_value-insert_all_example =
    look_up_value-insert_all 9 keys empty_heap (pos 102) (λ p lt. refl) (omega arith)
