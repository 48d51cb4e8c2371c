-- ===== src/RingBuffer/Tests.antt =====
-- Calls on a ring of four slots, and the theorems at them.
use ostep_code.Prelude.{◌≡◌, refl, true, false, some, none, [], ◌∷◌, pos, arith, ℕ_discrete}
use ostep_code.Heap.{done, timeout}
use ostep_code.RingBuffer.{Ring, ring, enqueue, enqueue_loop, dequeue, fill_node}
use ostep_code.RingBuffer.Slots.{Holds, fill_node-Holds}
use ostep_code.RingBuffer.Laws.{
  ring-Holds, enqueue-Holds, enqueue_full, dequeue-Holds, dequeue_empty,
}

abbrev four : Ring
four = record {
  size = 4;
  mask = 3;
  buffer = λ i. record { value = pos 0; seq = i };
  head_seq = 0;
  tail_seq = 0;
}

ring-four : ring 4 (λ i. pos 0) ≡ done four
unfolding ring
ring-four = refl

-- 6 is no power of two, but passes the `assert`.
ring_six : ring 6 (λ i. pos 0) ≡ done (record four { size = 6; mask = 5 })
unfolding ring
ring_six = refl

abbrev six : Ring
six = record four { size = 6; mask = 5 }

-- There two values share a slot: `& _mask` takes numbers 0 and 2 to the same one. The third enqueue
-- finds it taken and spins, though the ring is not full.
ring_six_stuck :
    enqueue (true ∷ true ∷ []) (fill_node (fill_node six (pos 7) 0) (pos 8) 1) (pos 9) ≡ timeout
unfolding enqueue enqueue_loop ℕ_discrete
ring_six_stuck = refl

ring-Holds_example : Holds four []
ring-Holds_example = ring-Holds 2 (λ i. pos 0) four (omega arith) (omega arith) ring-four

enqueue-Holds_example :
    (r : Ring) × (enqueue (false ∷ true ∷ []) four (pos 5) ≡ done (r, true)) × Holds r (pos 5 ∷ [])
enqueue-Holds_example =
    enqueue-Holds (false ∷ true ∷ []) four [] (pos 5) ring-Holds_example (omega arith) (omega arith)
      tt

abbrev one : Ring
one = fill_node four (pos 5) 0

one-Holds : Holds one (pos 5 ∷ [])
one-Holds = fill_node-Holds four [] (pos 5) ring-Holds_example (omega arith) (omega arith)

dequeue-Holds_example :
    (r : Ring) × (dequeue (false ∷ true ∷ []) one ≡ done (r, some (pos 5))) × Holds r []
dequeue-Holds_example = dequeue-Holds (false ∷ true ∷ []) one (pos 5) [] one-Holds tt

dequeue_empty_example : dequeue (true ∷ []) four ≡ done (four, none)
dequeue_empty_example = dequeue_empty true [] four ring-Holds_example

abbrev two : Ring
two = fill_node one (pos 6) 1

abbrev three : Ring
three = fill_node two (pos 7) 2

abbrev full : Ring
full = fill_node three (pos 8) 3

two-Holds : Holds two (pos 5 ∷ pos 6 ∷ [])
two-Holds = fill_node-Holds one (pos 5 ∷ []) (pos 6) one-Holds (omega arith) (omega arith)

three-Holds : Holds three (pos 5 ∷ pos 6 ∷ pos 7 ∷ [])
three-Holds = fill_node-Holds two (pos 5 ∷ pos 6 ∷ []) (pos 7) two-Holds (omega arith) (omega arith)

full-Holds : Holds full (pos 5 ∷ pos 6 ∷ pos 7 ∷ pos 8 ∷ [])
full-Holds =
    fill_node-Holds three (pos 5 ∷ pos 6 ∷ pos 7 ∷ []) (pos 8) three-Holds (omega arith)
      (omega arith)

enqueue_full_example : enqueue (true ∷ true ∷ true ∷ []) full (pos 9) ≡ timeout
enqueue_full_example =
    enqueue_full (true ∷ true ∷ true ∷ []) full (pos 5 ∷ pos 6 ∷ pos 7 ∷ pos 8 ∷ []) (pos 9)
      full-Holds refl
