-- ===== src/Bounded/Refine.antt =====
-- pc.c on the array against pc.c on the list.
use ostep_code.Prelude.{
  ◌+◌, ◌*◌, ◌≤◌, ℕ, suc, ◌<◌, ◌≡◌, ◌⊎◌, inl, inr, refl, none, some, arith, ℤ, pos, List, [],
}
use ostep_code.Threads.{total, System, Run, Reach, Run-bound_with}
use ostep_code.Threads.Sums.{total-one_and_rest}
use ostep_code.Threads.Simulation.{Shown, image-Run}
use ostep_code.Bounded.{
  Memory, Point, produce, test_full, full_wait, mark, test_mark, mark_wait, produced, consume,
  test_empty, empty_wait, consumed, marker, step, points, init,
}
use ostep_code.Bounded.Ends.{in_memory, left, left_falls}
use ostep_code.Bounded.Queue.{queue}
use ostep_code.Bounded.Ring.{
  Ring, empty_ring, ring, contents, IsRing, values, length-values, fill_values, get_values,
}
use ostep_code.Bounded.Laws.{Returned, pc_complete}

module _ (max loops consumers : ℕ) where
  abbrev pub as_list : Memory Ring → Memory (List ℤ)
  as_list m = record { slots = values max m.slots; empty = m.empty; fill = m.fill }

  abbrev Fine : Memory Ring → Type 0
  Fine m = IsRing max m.slots

  abbrev Follows : (m m' : Memory Ring) (p p' : Point) → Type 0
  Follows m m' p p' =
      Fine m' × (step queue max loops consumers (as_list m) p ≡ some (as_list m', p'))

  follows :
      (m m' : Memory Ring) (p p' : Point)
      → Fine m
      → step (ring max) max loops consumers m p ≡ some (m', p')
      → Follows m m' p p'
  unfolding step ring
  follows m m' (produce i) p' h e = ground arith
  follows m m' (test_full i) p' h e =
      ground (arith, length-values max m.slots, fill_values max m.slots (pos i) h)
  follows m m' (full_wait i) p' h e = ground arith
  follows m m' (mark j) p' h e = ground arith
  follows m m' (test_mark j) p' h e =
      ground (arith, length-values max m.slots, fill_values max m.slots marker h)
  follows m m' (mark_wait j) p' h e = ground arith
  follows m m' produced p' h e = ground arith
  follows m m' (consume v) p' h e = ground arith
  follows m m' test_empty p' h e =
      ground (arith, length-values max m.slots, get_values max m.slots h)
  follows m m' empty_wait p' h e = ground arith
  follows m m' consumed p' h e = ground arith

  shows :
      (m m' : Memory Ring) (p p' : Point)
      → Fine m
      → step (ring max) max loops consumers m p ≡ some (m', p')
      → Fine m'
        × (((as_list m' ≡ as_list m) × (p' ≡ p))
            ⊎ (step queue max loops consumers (as_list m) p ≡ some (as_list m', p')))
  shows m m' p p' h e = let (fine, same) = follows m m' p p' h e in (fine, inr same)

  same_stuck :
      (m : Memory Ring) (p : Point)
      → step (ring max) max loops consumers m p ≡ none
      → step queue max loops consumers (as_list m) p ≡ none
  unfolding step
  same_stuck m p e = ground arith

  module _ {k : ℕ} {s : System (Memory Ring) Point}
      (r : Run (step (ring max) max loops consumers) (suc consumers) (init empty_ring) k s) where
    begin : 0 < max → IsRing max empty_ring
    begin h = record { in_array = h; few = omega arith; apart = (h, inl refl) }

    image_reached :
        0 < max
        → Shown
            (step (ring max) max loops consumers)
            (step queue max loops consumers)
            as_list
            (λ p. p)
            Fine
            shows
            (suc consumers)
            (init [])
            s
    unfolding contents
    image_reached h =
        image-Run (step (ring max) max loops consumers) (step queue max loops consumers) as_list
          (λ p. p) Fine shows (begin h) r

    -- Whatever the threads come to with the array, they come to with the list of its values, and
    -- the indices stay in the array.
    pub pc_refines :
        0 < max
        → Reach
            (step queue max loops consumers)
            (suc consumers)
            (init [])
            (record { mem = as_list s.mem; pc = s.pc })
          × IsRing max s.mem.slots
    pc_refines h = let shown = image_reached h in (shown.reached, shown.kept)

    start :
        total (left loops consumers) (suc consumers) points
        ≡ left loops consumers (produce 0) + 2 * consumers
    start = total-one_and_rest (left loops consumers) points (consume (pos 0)) consumers (λ i. refl)

    -- With a slot and a consumer, and without spurious wake-ups, where no thread has a step all have
    -- returned, and this comes after no more than eight steps a round of the producer, ten a
    -- consumer, and two.
    pub ring_complete :
        0 < max
        → 0 < consumers
        → ((i : ℕ) → i < suc consumers → step (ring max) max loops consumers s.mem (s.pc i) ≡ none)
        → (k ≤ 8 * loops + 10 * consumers + 2) × ((i : ℕ) → i < suc consumers → Returned (s.pc i))
    ring_complete h c stuck = (
      omega (
        arith,
        Run-bound_with (step (ring max) max loops consumers) (suc consumers) in_memory
            (left loops consumers) (λ m m' p q e. left_falls max loops consumers m m' p q e) r,
        start,
      ),
      λ i lt.
          pc_complete max loops consumers ((pc_refines h).0).run
            (λ i lt. same_stuck s.mem (s.pc i) (stuck i lt)) h c i lt,
    )
