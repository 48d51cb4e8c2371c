-- ===== src/ProducerConsumer/Laws.antt =====
-- The circular buffer against a bounded first-in first-out list.
use ostep_code.Prelude.{
  length_snoc, ◌⊎◌, inl, inr, ℕ, ◌+◌, ◌%◌, ◌≤◌, ◌<◌, ◌≡◌, refl, Bool, true, false, Option, none,
  some, ℤ, List, [], ◌∷◌, ◌++◌, arith, length, ◌==◌, if◌then◌else◌,
}
use ostep_code.ProducerConsumer.{
  max_slots, Buffer, empty_buffer, store, put, get, producer, consumer, Section, produce, consume,
  step, run,
}

-- From slot `p` on, round the end of the array, stand the values `xs`.
abbrev pub Slots : (ℕ → ℤ) → ℕ → List ℤ → Type 0
Slots f p [] = p < max_slots
Slots f p (x ∷ xs) = (p < max_slots) × (f p ≡ x) × Slots f ((p + 1) % max_slots) xs

-- The buffer holds `xs`, the oldest first.
pub record Holds (b : Buffer) (xs : List ℤ) : Type 0 where
  pub slots : Slots b.buffer b.use_ptr xs
  pub counted : b.count ≡ length xs
  pub fits : length xs ≤ max_slots
  pub filled : b.fill_ptr ≡ (b.use_ptr + length xs) % max_slots

Slots-lt : (f : ℕ → ℤ) (p : ℕ) (xs : List ℤ) → Slots f p xs → p < max_slots
Slots-lt f p [] s = s
Slots-lt f p (x ∷ xs) s = s.0

-- A value stored behind the last one is added, and the others stay.
Slots-store :
    (f : ℕ → ℤ) (p q : ℕ) (xs : List ℤ) (v : ℤ)
    → length xs < max_slots
    → q ≡ (p + length xs) % max_slots
    → Slots f p xs
    → Slots (store f q v) p (xs ++ v ∷ [])
Slots-store f p q [] v lt e s = (s, ground arith, omega arith)
Slots-store f p q (x ∷ xs) v lt e (less, at, rest) = (
  less,
  ground arith,
  Slots-store f ((p + 1) % max_slots) q xs v (omega arith) (omega arith) rest,
)

put-Holds :
    (b : Buffer) (xs : List ℤ) (v : ℤ)
    → length xs < max_slots
    → Holds b xs
    → Holds (put b v) (xs ++ v ∷ [])
unfolding put
put-Holds b xs v lt h = record {
  slots = Slots-store b.buffer b.use_ptr b.fill_ptr xs v lt h.filled h.slots;
  counted = omega (arith, h.counted, length_snoc xs v);
  fits = omega (arith, length_snoc xs v);
  filled = omega (arith, h.filled, length_snoc xs v);
}

get-Holds :
    (b : Buffer) (x : ℤ) (xs : List ℤ) → Holds b (x ∷ xs) → Holds ((get b).0) xs × ((get b).1 ≡ x)
unfolding get
get-Holds b x xs h =
    let (less, at, rest) = h.slots in
    (
      record {
        slots = rest;
        counted = omega (arith, h.counted);
        fits = omega (arith, h.fits);
        filled = omega (arith, h.filled);
      },
      at,
    )

-- The bounded first-in first-out list.
pub fifo_step : Section → List ℤ → Option (List ℤ × Option ℤ)
fifo_step (produce i) xs = if length xs == max_slots then none else some (xs ++ i ∷ [], none)
fifo_step consume [] = none
fifo_step consume (x ∷ xs) = some (xs, some x)

pub fifo : List ℤ → List Section → List (Option (Option ℤ))
fifo xs [] = []
fifo xs (s ∷ sections) = elim (fifo_step s xs) [
  | none ↦ none ∷ fifo xs sections
  | some (xs', out) ↦ some out ∷ fifo xs' sections
]

produce-Holds :
    (b : Buffer) (xs : List ℤ) (i : ℤ) (full : Bool)
    → (length xs == max_slots) ≡ full
    → Holds b xs
    → (full ≡ true) × (step (produce i) b ≡ none) × (fifo_step (produce i) xs ≡ none)
      ⊎ (full ≡ false)
        × (step (produce i) b ≡ some (put b i, none))
        × (fifo_step (produce i) xs ≡ some (xs ++ i ∷ [], none))
        × Holds (put b i) (xs ++ i ∷ [])
unfolding step producer fifo_step
produce-Holds b xs i true e h = inl (refl, ground (arith, h.counted), ground arith)
produce-Holds b xs i false e h =
    inr (refl, ground (arith, h.counted), ground arith, put-Holds b xs i (ground (arith, h.fits)) h)

-- One section does the same to the buffer and to the list.
pub Holds-step :
    (b : Buffer) (xs : List ℤ) (s : Section)
    → Holds b xs
    → (step s b ≡ none) × (fifo_step s xs ≡ none)
      ⊎ (b' : Buffer) × (xs' : List ℤ) × (out : Option ℤ) × (step s b ≡ some (b', out))
        × (fifo_step s xs ≡ some (xs', out))
        × Holds b' xs'
unfolding step consumer fifo_step
Holds-step b xs (produce i) h = elim (produce-Holds b xs i (length xs == max_slots) refl h) [
  | inl (e, waits, full) ↦ inl (waits, full)
  | inr (e, puts, adds, held) ↦ inr (put b i, xs ++ i ∷ [], none, puts, adds, held)
]
Holds-step b [] consume h = inl (ground (arith, h.counted), refl)
Holds-step b (x ∷ xs) consume h =
    let (held, at) = get-Holds b x xs h in
    inr ((get b).0, xs, some x, ground (arith, h.counted, at), refl, held)

Holds-run :
    (sections : List Section) (b : Buffer) (xs : List ℤ)
    → Holds b xs
    → run b sections ≡ fifo xs sections
unfolding run fifo
Holds-run [] b xs h = refl
Holds-run (s ∷ sections) b xs h = elim (Holds-step b xs s h) [
  | inl (waits, full) ↦ let rest = Holds-run sections b xs h in cc
  | inr (b', xs', out, e, f, held) ↦ let rest = Holds-run sections b' xs' held in cc
]

empty_buffer-Holds : Holds empty_buffer []
empty_buffer-Holds = record {
  slots = omega arith;
  counted = refl;
  fits = omega arith;
  filled = refl;
}

-- Whatever the order in which producers and consumers get the lock, the sections wait and hand
-- out values as those of a first-in first-out list do that is bounded by `MAX`.
pub buffer_refines : (sections : List Section) → run empty_buffer sections ≡ fifo [] sections
buffer_refines sections = Holds-run sections empty_buffer [] empty_buffer-Holds
