-- ===== src/Bounded/Tests.antt =====
-- A schedule of one producer and one consumer, and the theorems at it.
use ostep_code.Prelude.{
  ℕ, ◌+◌, ◌*◌, ◌≤◌, ◌<◌, ◌≡◌, refl, none, pos, List, [], ◌∷◌, ◌++◌, ℕ_discrete, arith,
}
use ostep_code.Threads.{System, Reach, follow, follow-Reach}
use ostep_code.Threads.Two.{of_two}
use ostep_code.Bounded.{Memory, Point, step, init}
use ostep_code.Bounded.Queue.{queue}
use ostep_code.Bounded.Ring.{
  Ring, empty_ring, ring, do_fill, do_get, globals, do_fill_wrap, do_get_wrap, wrap_same, IsRing,
}
use ostep_code.Bounded.Laws.{Returned}
use ostep_code.Bounded.Refine.{as_list, pc_refines, ring_complete}
use ostep_code.Bounded.Works as Works
use ostep_code.Bounded.Works.Points as Points
use ostep_code.Bounded.Works.Laws.{works_complete}

abbrev four : List ℕ
four = 0 ∷ 1 ∷ 0 ∷ 1 ∷ []

abbrev turns : List ℕ
turns = four ++ four ++ four ++ four ++ four ++ four ++ four ++ four

-- One slot, one value, one consumer.
abbrev consumed_all : System (Memory Ring) Point
consumed_all = follow (step (ring 1) 1 1 1) 2 turns (init empty_ring)

pc_refines_example :
    Reach
      (step queue 1 1 1)
      2
      (init [])
      (record { mem = as_list 1 1 1 consumed_all.mem; pc = consumed_all.pc })
    × IsRing 1 consumed_all.mem.slots
pc_refines_example =
    pc_refines 1 1 1 (follow-Reach (step (ring 1) 1 1 1) 2 turns (init empty_ring)).run
      (omega arith)

ring_complete_example :
    ((follow-Reach (step (ring 1) 1 1 1) 2 turns (init empty_ring)).steps ≤ 8 * 1 + 10 * 1 + 2)
    × ((i : ℕ) → i < 2 → Returned (consumed_all.pc i))
unfolding follow step ring do_fill do_get ℕ_discrete
ring_complete_example =
    ring_complete 1 1 1 (follow-Reach (step (ring 1) 1 1 1) 2 turns (init empty_ring)).run
      (omega arith) (omega arith)
      (of_two (λ i. step (ring 1) 1 1 1 consumed_all.mem (consumed_all.pc i) ≡ none) refl refl)

abbrev last_slot : Ring
last_slot = record { buffer = λ i. pos i; use_ptr = 2; fill_ptr = 2; num_full = 0 }

wrap_same_example :
    (globals 3 (do_fill 3 last_slot (pos 7)) ≡ do_fill_wrap 3 (globals 3 last_slot) (pos 7))
    × (globals 3 ((do_get 3 last_slot).0) ≡ (do_get_wrap 3 (globals 3 last_slot)).0)
    × ((do_get 3 last_slot).1 ≡ (do_get_wrap 3 (globals 3 last_slot)).1)
    × ((do_fill 3 last_slot (pos 7)).fill_ptr < 3)
    × ((do_get 3 last_slot).0.use_ptr < 3)
wrap_same_example = wrap_same 3 last_slot (pos 7) (omega arith) (omega arith)

abbrev worked : System Works.Memory Works.Point
worked = follow (Works.step_works 1 1 1) 2 (turns ++ turns) (Works.init_works 1)

works_complete_example :
    ((follow-Reach (Works.step_works 1 1 1) 2 (turns ++ turns) (Works.init_works 1)).steps
      ≤ 12 * 1 + 14 * 1 + 2)
    × ((i : ℕ) → i < 2 → Points.Returned (worked.pc i))
unfolding follow Works.step_works do_fill_wrap do_get_wrap ℕ_discrete
works_complete_example =
    works_complete 1 1 1
      (follow-Reach (Works.step_works 1 1 1) 2 (turns ++ turns) (Works.init_works 1)).run
      (omega arith) (of_two (λ i. Works.step_works 1 1 1 worked.mem (worked.pc i) ≡ none) refl refl)
      (omega arith)
