-- ===== src/Bounded/Works/Laws.antt =====
-- Theorems about producer_consumer_works.c.
use ostep_code.Prelude.{
  ℕ, suc, ◌+◌, ◌*◌, ◌≤◌, ◌<◌, ◌≡◌, ◌≢◌, refl, inl, Option, none, arith, dec_lt, pos,
}
use ostep_code.Threads.{
  total, total-zero, total-pos, le-total, total_mono, System, Run, Run-bound_with,
}
use ostep_code.Threads.Sums.{sums, sum-inv, stuck-zero, zero-all, total-one_and_rest}
use ostep_code.Bounded.Queue.{markers_nil}
use ostep_code.Bounded.Ring.{values, length-values, counted, contents}
use ostep_code.Bounded.Works.{
  Memory, value_of, Point, produce, consume, step_works, points_works, init_works,
}
use ostep_code.Bounded.Works.Weights.{
  locked, filled, coming, other, reading, finished, to_mark, astray, weights, Inv, moved,
}
use ostep_code.Bounded.Works.Steps.{keep}
use ostep_code.Bounded.Works.Ends.{waiting_full, left, left_falls}
use ostep_code.Bounded.Works.Points.{
  Returned, free, at_mutex, at_empty, at_full, locked-zero, moving-zero, reading-zero, to_mark-zero,
  left_to_mark, at_full-le-reading, returned, no_values,
}

module _ (max loops consumers : ℕ) where
  abbrev go : Memory → Point → Option (Memory × Point)
  go = step_works max loops consumers

  live : (m : Memory) (p : Point) → 0 < free p → go m p ≢ none
  unfolding step_works
  live m p h = ground arith

  live_mutex : (m : Memory) (p : Point) → 0 < m.mutex → 0 < at_mutex p → go m p ≢ none
  unfolding step_works
  live_mutex m p k h = ground arith

  live_empty : (m : Memory) (p : Point) → 0 < m.empty → 0 < at_empty p → go m p ≢ none
  unfolding step_works
  live_empty m p k h = ground arith

  live_full : (m : Memory) (p : Point) → 0 < m.full → 0 < at_full p → go m p ≢ none
  unfolding step_works
  live_full m p k h = ground arith

  start :
      (w : Point → ℕ)
      → total w (suc consumers) points_works
        ≡ w (produce (value_of 0)) + w (consume (pos 0)) * consumers
  start w = total-one_and_rest w points_works (consume (pos 0)) consumers (λ i. refl)

  begin :
      0 < max
      → Inv consumers max
          (init_works max).mem
          (sums go (suc consumers) (weights consumers) points_works)
  unfolding contents
  begin h = record {
    one_lock = omega (arith, start locked);
    permits = omega (arith, start filled, start coming, start other);
    number = 0;
    slots = omega (arith, start filled, start coming);
    is_ring = record { in_array = h; few = omega arith; apart = (h, inl refl) };
    all_consumers = omega (arith, start reading, start finished);
    all_marks = omega (arith, start finished, start (to_mark consumers), markers_nil);
    none_astray = omega (arith, start (astray consumers));
  }

  module _ {k : ℕ} {s : System Memory Point} (r : Run go (suc consumers) (init_works max) k s)
      (room : 0 < max) where
    reached : Inv consumers max s.mem (sums go (suc consumers) (weights consumers) s.pc)
    reached =
        sum-inv go (suc consumers) (weights consumers) (Inv consumers max)
          (λ m m' p q t t' e h.
            keep consumers max loops m m' t t' p q e (moved consumers max loops p q t t' h))
          (begin room) r

    -- The indices stay in the array, and the permits are those that `main` hands out.
    pub works_bounds :
        (s.mem.globals.use_at < max)
        × (s.mem.globals.fill_at < max)
        × (s.mem.empty + s.mem.full ≤ max)
        × (s.mem.mutex ≤ 1)
    works_bounds =
        let v = reached in
        (v.is_ring.in_array, v.is_ring.apart.0, omega (arith, v.permits), omega (arith, v.one_lock))

    module _ (stuck : (i : ℕ) → i < suc consumers → go s.mem (s.pc i) ≡ none) where
      free_none : (i : ℕ) → i < suc consumers → free (s.pc i) ≡ 0
      free_none =
          zero-all free (suc consumers) s.pc
            (stuck-zero go (suc consumers) s stuck free (live s.mem))

      mutex_open : 0 < s.mem.mutex
      mutex_open = omega (
        arith,
        reached.one_lock,
        total-zero locked (suc consumers) s.pc (λ i lt. locked-zero (s.pc i) (free_none i lt)),
      )

      mutex_none : (i : ℕ) → i < suc consumers → at_mutex (s.pc i) ≡ 0
      mutex_none =
          zero-all at_mutex (suc consumers) s.pc
            (stuck-zero go (suc consumers) s stuck at_mutex (λ p. live_mutex s.mem p mutex_open))

      moving_none :
          (i : ℕ) → i < suc consumers → filled (s.pc i) + coming (s.pc i) + other (s.pc i) ≡ 0
      moving_none i lt = moving-zero (s.pc i) (free_none i lt) (mutex_none i lt)

      -- No permit is on its way, so each slot is open or full.
      all_slots : s.mem.empty + s.mem.full ≡ max
      all_slots = omega (
        arith,
        reached.permits,
        total-zero filled (suc consumers) s.pc (λ i lt. omega (arith, moving_none i lt)),
        total-zero coming (suc consumers) s.pc (λ i lt. omega (arith, moving_none i lt)),
        total-zero other (suc consumers) s.pc (λ i lt. omega (arith, moving_none i lt)),
      )

      number_full : reached.number ≡ s.mem.full
      number_full = omega (
        arith,
        reached.slots,
        total-zero filled (suc consumers) s.pc (λ i lt. omega (arith, moving_none i lt)),
        total-zero coming (suc consumers) s.pc (λ i lt. omega (arith, moving_none i lt)),
      )

      none_reading : 0 < s.mem.full → total reading (suc consumers) s.pc ≡ 0
      none_reading some_full =
          let none_full =
            stuck-zero go (suc consumers) s stuck at_full (λ p. live_full s.mem p some_full) in
          total-zero reading (suc consumers) s.pc (λ i lt.
            reading-zero (s.pc i) (free_none i lt) (mutex_none i lt)
              (zero-all at_full (suc consumers) s.pc none_full i lt))

      -- A producer that waits for a slot has markers left to put.
      waits_to_mark :
          0 < consumers
          → 0 < total at_empty (suc consumers) s.pc
          → 0 < total (to_mark consumers) (suc consumers) s.pc
      waits_to_mark h w =
          let (i, lt, here) = total-pos at_empty (suc consumers) s.pc w in
          let on_way = zero-all (astray consumers) (suc consumers) s.pc reached.none_astray i lt in
          omega (
            arith,
            left_to_mark consumers (s.pc i) h here on_way,
            le-total (to_mark consumers) (suc consumers) s.pc i lt,
          )

      none_at_empty : 0 < consumers → total at_empty (suc consumers) s.pc ≡ 0
      none_at_empty h = elim (dec_lt 0 (total at_empty (suc consumers) s.pc)) [
        | no z ↦ omega arith
        | yes up ↦ elim (dec_lt 0 s.mem.empty) [
          | yes slot ↦ stuck-zero go (suc consumers) s stuck at_empty (λ p. live_empty s.mem p slot)
          | no none_open ↦
              let some_full : 0 < s.mem.full = omega (arith, all_slots, room) in
              let v = reached in
              absurd (
                omega
                  (arith, waits_to_mark h up, none_reading some_full, v.all_consumers, v.all_marks))
        ]
      ]

      none_to_mark : 0 < consumers → total (to_mark consumers) (suc consumers) s.pc ≡ 0
      none_to_mark h = total-zero (to_mark consumers) (suc consumers) s.pc (λ i lt.
          to_mark-zero consumers (s.pc i) (free_none i lt) (mutex_none i lt)
            (zero-all at_empty (suc consumers) s.pc (none_at_empty h) i lt))

      none_at_full : 0 < consumers → total at_full (suc consumers) s.pc ≡ 0
      none_at_full h = elim (dec_lt 0 s.mem.full) [
        | yes some_full ↦
            stuck-zero go (suc consumers) s stuck at_full (λ p. live_full s.mem p some_full)
        | no z ↦
            let v = reached in
            let no_marks = no_values (values max (counted max s.mem.globals v.number)) (
              omega (arith, length-values max (counted max s.mem.globals v.number), number_full)) in
            omega (
              arith,
              no_marks,
              none_to_mark h,
              v.all_consumers,
              v.all_marks,
              total_mono at_full reading at_full-le-reading (suc consumers) s.pc,
            )
      ]

      -- With a slot and a consumer, where no thread has a step, all have returned, and this comes after
      -- no more than twelve steps a round of the producer, fourteen a consumer, and two.
      pub works_complete :
          0 < consumers
          → (k ≤ 12 * loops + 14 * consumers + 2)
            × ((i : ℕ) → i < suc consumers → Returned (s.pc i))
      works_complete h = (
        omega (
          arith,
          Run-bound_with go (suc consumers) waiting_full (left loops consumers)
              (left_falls max loops consumers) r,
          start (left loops consumers),
        ),
        λ i lt.
            returned (s.pc i) (free_none i lt) (mutex_none i lt)
              (zero-all at_empty (suc consumers) s.pc (none_at_empty h) i lt)
              (zero-all at_full (suc consumers) s.pc (none_at_full h) i lt),
      )
