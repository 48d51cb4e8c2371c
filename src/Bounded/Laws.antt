-- ===== src/Bounded/Laws.antt =====
-- Theorems about pc.c on the list of the buffer's values; Refine is about the array.
mod Steps
use ostep_code.Prelude.{
  ℕ, zero, suc, ◌+◌, ◌≤◌, ◌<◌, ◌≡◌, ◌≢◌, ◌⊎◌, inl, inr, refl, Option, none, some, arith, ℤ, pos,
  negsuc, List, [], ◌∷◌, length, dec_lt, ◌*◌, Option-cases,
}
use ostep_code.Threads.{total, total-zero, total-pos, le-total, System, Run}
use ostep_code.Threads.Sums.{Shift, sums, sum-inv, stuck-zero, zero-all, total-one_and_rest}
use ostep_code.Bounded.{
  Memory, Point, produce, test_full, full_wait, mark, test_mark, mark_wait, produced, consume,
  test_empty, empty_wait, consumed, marker, step, points, init,
}
use ostep_code.Bounded.Queue.{queue, markers, is_marker, markers_nil}
use Steps.{
  awake, asleep, finished, waiting, working, to_mark, astray, Sum, of_awake, of_asleep, of_finished,
  of_waiting, of_working, of_to_mark, of_astray, weights, Inv, moved, keep,
}

-- Whether a thread has returned.
abbrev pub Returned : Point → Type 0
Returned produced = Unit
Returned consumed = Unit
Returned _ = ⊥

-- The points that can always be left.
abbrev free : Point → ℕ
free (full_wait i) = 0
free (mark_wait i) = 0
free produced = 0
free empty_wait = 0
free consumed = 0
free _ = 1

awake-zero : (p : Point) → free p ≡ 0 → awake p ≡ 0
awake-zero p h = ground arith

to_mark-zero : (c : ℕ) (p : Point) → free p ≡ 0 → waiting p ≡ 0 → to_mark c p ≡ 0
to_mark-zero c p h k = ground arith

returned : (p : Point) → free p ≡ 0 → waiting p ≡ 0 → asleep p ≡ 0 → Returned p
returned p h k l = ground arith

no_values : (xs : List ℤ) → length xs ≡ 0 → markers xs ≡ 0
no_values [] h = markers_nil
no_values (x ∷ xs) h = absurd (omega (arith, h))

module _ (max loops consumers : ℕ) where
  left_to_mark :
      (p : Point) → 0 < consumers → 0 < waiting p → astray consumers p ≡ 0 → 0 < to_mark consumers p
  left_to_mark p h k l = ground arith

  abbrev go : Memory (List ℤ) → Point → Option (Memory (List ℤ) × Point)
  go = step queue max loops consumers

  live : (m : Memory (List ℤ)) (p : Point) → 0 < free p → go m p ≢ none
  unfolding step
  live m p h = ground arith

  live_full : (m : Memory (List ℤ)) (p : Point) → 0 < m.empty.woken → 0 < waiting p → go m p ≢ none
  unfolding step
  live_full m p k h = ground arith

  live_empty : (m : Memory (List ℤ)) (p : Point) → 0 < m.fill.woken → 0 < asleep p → go m p ≢ none
  unfolding step
  live_empty m p k h = ground arith

  start :
      (w : Point → ℕ)
      → total w (suc consumers) points ≡ w (produce 0) + w (consume (pos 0)) * consumers
  start w = total-one_and_rest w points (consume (pos 0)) consumers (λ i. refl)

  begin :
      Inv consumers max
        (init {B = List ℤ} []).mem
        (sums go (suc consumers) (weights consumers) points)
  begin = ground (
    arith,
    start awake,
    start asleep,
    start finished,
    start waiting,
    start working,
    start (to_mark consumers),
    start (astray consumers),
    markers_nil,
  )

  module _ {k : ℕ} {s : System (Memory (List ℤ)) Point}
      (r : Run go (suc consumers) (init []) k s) where
    reached : Inv consumers max s.mem (sums go (suc consumers) (weights consumers) s.pc)
    reached =
        sum-inv go (suc consumers) (weights consumers) (Inv consumers max)
          (λ m m' p q t t' e h.
            keep consumers max loops m m' t t' p q e (moved consumers max loops p q t t' h))
          begin r

    module _ (stuck : (i : ℕ) → i < suc consumers → go s.mem (s.pc i) ≡ none) where
      free_none : (i : ℕ) → i < suc consumers → free (s.pc i) ≡ 0
      free_none =
          zero-all free (suc consumers) s.pc
            (stuck-zero go (suc consumers) s stuck free (live s.mem))

      awake_none : total awake (suc consumers) s.pc ≡ 0
      awake_none =
          total-zero awake (suc consumers) s.pc (λ i lt. awake-zero (s.pc i) (free_none i lt))

      full_woken_none : s.mem.empty.woken ≡ 0
      full_woken_none = elim (dec_lt 0 s.mem.empty.woken) [
        | no z ↦ omega arith
        | yes up ↦ omega (
          arith,
          reached.waiters,
          stuck-zero go (suc consumers) s stuck waiting (λ p. live_full s.mem p up),
        )
      ]

      empty_woken_none : s.mem.fill.woken ≡ 0
      empty_woken_none = elim (dec_lt 0 s.mem.fill.woken) [
        | no z ↦ omega arith
        | yes up ↦ omega (
          arith,
          reached.sleepers,
          stuck-zero go (suc consumers) s stuck asleep (λ p. live_empty s.mem p up),
        )
      ]

      -- A producer that waits has markers left to put, and the buffer is full.
      waits_to_mark :
          0 < consumers
          → 0 < total waiting (suc consumers) s.pc
          → 0 < total (to_mark consumers) (suc consumers) s.pc
      waits_to_mark h w =
          let (i, lt, here) = total-pos waiting (suc consumers) s.pc w in
          let on_way = zero-all (astray consumers) (suc consumers) s.pc reached.none_astray i lt in
          omega (
            arith,
            left_to_mark (s.pc i) h here on_way,
            le-total (to_mark consumers) (suc consumers) s.pc i lt,
          )

      none_waits : 0 < max → 0 < consumers → total waiting (suc consumers) s.pc ≡ 0
      none_waits h k = elim (dec_lt 0 (total waiting (suc consumers) s.pc)) [
        | no z ↦ omega arith
        | yes up ↦
            let v = reached in
            ground (arith, waits_to_mark k up, full_woken_none, empty_woken_none, awake_none, v)
      ]

      none_to_mark :
          total waiting (suc consumers) s.pc ≡ 0
          → total (to_mark consumers) (suc consumers) s.pc ≡ 0
      none_to_mark z = total-zero (to_mark consumers) (suc consumers) s.pc (λ i lt.
          to_mark-zero consumers (s.pc i) (free_none i lt)
            (zero-all waiting (suc consumers) s.pc z i lt))

      none_asleep : 0 < max → 0 < consumers → total asleep (suc consumers) s.pc ≡ 0
      none_asleep h k = elim (dec_lt 0 (total asleep (suc consumers) s.pc)) [
        | no z ↦ omega arith
        | yes up ↦
            let v = reached in
            let empty : markers s.mem.slots ≡ 0 =
              no_values s.mem.slots (ground (arith, empty_woken_none, awake_none, v)) in
            ground (arith, none_to_mark (none_waits h k), empty, awake_none, v)
      ]

      -- Where no thread has a step, all have returned.
      pub pc_complete : 0 < max → 0 < consumers → (i : ℕ) → i < suc consumers → Returned (s.pc i)
      pc_complete h k i lt =
          returned (s.pc i) (free_none i lt)
            (zero-all waiting (suc consumers) s.pc (none_waits h k) i lt)
            (zero-all asleep (suc consumers) s.pc (none_asleep h k) i lt)
