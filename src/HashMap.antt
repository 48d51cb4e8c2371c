-- ===== src/HashMap.antt =====
-- threads-locks/Locked data structures/linkedlist&hash-map-cpp/hashmap-cpp.cpp: a hash map of 101
-- lists, each with its own lock. The printing is left out.
pub mod Laws
mod Tests
use ostep_code.Prelude.{ℕ, ◌%◌, Bool, ℤ, abs, ite, ℕ_discrete}
use ostep_code.Heap.{Outcome, Heap}
use ostep_code.LinkedList
use ostep_code.LinkedList.{LinkedList, empty_list, insert, look_up}

abbrev pub buckets : ℕ
buckets = 101

-- `abs(value) % BUCKETS`; the value is not the least `int`, of which `abs` is undefined.
abbrev pub index : ℤ → ℕ
index value = abs value % buckets

-- `lists`, by their index.
pub record HashMap : Type 0 where
  pub lists : ℕ → LinkedList

abbrev pub empty_map : HashMap
empty_map = record { lists = λ i. empty_list }

abbrev pub put_list : (ℕ → LinkedList) → ℕ → LinkedList → ℕ → LinkedList
put_list lists i l j = ite (ℕ_discrete i j) l (lists j)

unfoldable pub insert_value : Heap ℤ → HashMap → ℤ → Heap ℤ × HashMap
insert_value h m value =
    let (h', l) = insert h (m.lists (index value)) value in
    (h', record m { lists = put_list m.lists (index value) l })

unfoldable pub look_up_value : ℕ → Heap ℤ → HashMap → ℤ → Outcome Bool
look_up_value fuel h m value = look_up fuel h (m.lists (index value)) value
