-- ===== src/RingBuffer/Laws.antt =====
-- The ring of sequence numbers against a bounded first-in first-out list.
use ostep_code.Prelude.{
  IsLucky, subst, ℕ, ◌+◌, ◌-◌, ◌*◌, ◌%◌, ◌^◌, ◌≤◌, ◌<◌, ◌≡◌, refl, sym, ap, ◌∙◌, Bool, true, false,
  none, some, ℤ, List, [], ◌∷◌, ◌++◌, arith, length, if◌then◌else◌, ◌==◌,
}
use ostep_code.Heap.{Outcome, done, fault, timeout}
use ostep_code.RingBuffer.{
  word, Ring, ring, difference, node_at, enqueue, enqueue_loop, dequeue, dequeue_loop, fill_node,
  empty_node,
}
use native.Mathlib.Nat.{mod-eq_of_lt}
use ostep_code.RingBuffer.Slots.{
  HasMask, Holds, node_at_lap, masked_lem, fill_node-Holds, empty_node-Holds,
}

-- A ring that the constructor makes of a power of two holds nothing.
pub ring-Holds :
    (k : ℕ) (junk : ℕ → ℤ) (r : Ring)
    → 2 * 2 ^ k < 2 ^ 63
    → 2 ≤ 2 ^ k
    → ring (2 ^ k) junk ≡ done r
    → Holds r []
unfolding ring
ring-Holds k junk r room large e = subst (λ r. Holds r []) (made _ e) fresh
  where
    initial : Ring
    initial = record {
      size = 2 ^ k;
      mask = 2 ^ k - 1;
      buffer = λ i. record { value = junk i; seq = i };
      head_seq = 0;
      tail_seq = 0;
    }

    mask : HasMask (2 ^ k) (2 ^ k - 1)
    mask = record { bits = k; power = refl; large = large; masked = refl }

    fresh : Holds initial []
    fresh = record {
      has_mask = mask;
      room = omega arith;
      count = refl;
      fits = omega arith;
      full = λ j x e. ground arith;
      free = λ j le less. masked_lem initial (0 + j) mask ∙ mod-eq_of_lt (omega arith);
    }

    made : (accepted : Bool) → (if accepted then done initial else fault) ≡ done r → initial ≡ r
    made true e = ap result e
      where
        result : Outcome Ring → Ring
        result (done r) = r
        result fault = r
        result timeout = r
    made false e = ground arith

-- A ring whose size is a power of two of at least two, as `Holds` asks, and that is not full takes a
-- value behind the others, provided that one of the rounds lets the exchange succeed and the numbers
-- stay below 2^63. The constructor lets other sizes through, of which this does not speak.
pub enqueue-Holds :
    (rounds : List Bool) (r : Ring) (xs : List ℤ) (v : ℤ)
    → Holds r xs
    → length xs < r.size
    → r.head_seq + 1 + 2 * r.size < 2 ^ 63
    → IsLucky rounds
    → (r' : Ring) × (enqueue rounds r v ≡ done (r', true)) × Holds r' (xs ++ v ∷ [])
unfolding enqueue enqueue_loop
enqueue-Holds rounds r xs v h lt room l =
    (fill_node r v r.head_seq, go rounds l, fill_node-Holds r xs v h lt room)
  where
    empty : (node_at r r.head_seq).seq ≡ r.head_seq
    empty = ap (λ n. (node_at r n).seq) h.count ∙ h.free (length xs) (omega arith) lt ∙ sym h.count

    zero_dif : difference (node_at r r.head_seq).seq r.head_seq ≡ 0
    zero_dif = omega (arith, empty)

    go :
        (rounds : List Bool)
        → IsLucky rounds
        → enqueue_loop rounds r v r.head_seq ≡ done (fill_node r v r.head_seq, true)
    go [] l = absurd l
    go (true ∷ rest) l = ground (arith, zero_dif)
    go (false ∷ rest) l = ground (arith, zero_dif, go rest l)

-- On a full ring `enqueue` has not come back after any number of rounds, whichever of them would
-- let an exchange succeed.
pub enqueue_full :
    (rounds : List Bool) (r : Ring) (xs : List ℤ) (v : ℤ)
    → Holds r xs
    → length xs ≡ r.size
    → enqueue rounds r v ≡ timeout
unfolding enqueue enqueue_loop
enqueue_full rounds r [] v h e = absurd (omega (arith, e, h.has_mask.large))
enqueue_full rounds r (x ∷ xs) v h e = go rounds
  where
    oldest : (node_at r r.head_seq).seq ≡ r.tail_seq + 1
    oldest =
        ap (λ n. (node_at r n).seq) (h.count ∙ ap (λ m. r.tail_seq + m) e)
        ∙ ap (λ n. n.seq) (node_at_lap r r.tail_seq h.has_mask)
        ∙ ap (λ n. (node_at r n).seq) (omega arith)
        ∙ ap (λ n. n.seq) (h.full 0 x refl)
        ∙ omega arith

    dif : (difference (node_at r r.head_seq).seq r.head_seq == 0) ≡ false
    dif = ground (arith, oldest, h.count, h.room, e, h.has_mask.large)

    go : (rounds : List Bool) → enqueue_loop rounds r v r.head_seq ≡ timeout
    go [] = refl
    go (cas ∷ rest) = ground (arith, dif, go rest)

-- A ring whose size is a power of two of at least two and that holds a value, the numbers below 2^63
-- as `Holds` asks, hands out the oldest, provided that one of the rounds lets the exchange succeed.
pub dequeue-Holds :
    (rounds : List Bool) (r : Ring) (x : ℤ) (xs : List ℤ)
    → Holds r (x ∷ xs)
    → IsLucky rounds
    → (r' : Ring) × (dequeue rounds r ≡ done (r', some x)) × Holds r' xs
unfolding dequeue dequeue_loop
dequeue-Holds rounds r x xs h l = (empty_node r r.tail_seq, go rounds l, empty_node-Holds r x xs h)
  where
    oldest : node_at r r.tail_seq ≡ record { value = x; seq = r.tail_seq + 1 }
    oldest =
        ap (node_at r) (omega arith)
        ∙ h.full 0 x refl
        ∙ ap (λ s. record { value = x; seq = s }) (omega arith)

    zero_dif : difference (node_at r r.tail_seq).seq ((r.tail_seq + 1) % word) ≡ 0
    zero_dif = omega (arith, ap (λ n. n.seq) oldest, h.count, h.room)

    go :
        (rounds : List Bool)
        → IsLucky rounds
        → dequeue_loop rounds r r.tail_seq ≡ done (empty_node r r.tail_seq, some x)
    go [] l = absurd l
    go (true ∷ rest) l = ground (arith, zero_dif, ap (λ n. n.value) oldest)
    go (false ∷ rest) l = ground (arith, zero_dif, go rest l)

-- On an empty ring `dequeue` comes back in the first round, without a value.
pub dequeue_empty :
    (cas : Bool) (rest : List Bool) (r : Ring)
    → Holds r []
    → dequeue (cas ∷ rest) r ≡ done (r, none)
unfolding dequeue dequeue_loop
dequeue_empty cas rest r h = ground (arith, dif)
  where
    next : (node_at r r.tail_seq).seq ≡ r.tail_seq
    next =
        ap (λ n. (node_at r n).seq) (omega arith)
        ∙ h.free 0 (omega arith) (omega (arith, h.has_mask.large))
        ∙ omega arith

    dif : difference (node_at r r.tail_seq).seq ((r.tail_seq + 1) % word) ≡ word - 1
    dif = omega (arith, next, h.count, h.room)
