-- ===== src/ProducerConsumer/SingleCv.antt =====
-- threads-locks/c++11-Producer-consumer/MpMCSingleCV.cpp: the circular buffer with one condition
-- variable. Its `put` leaves its argument aside and stores `fill_ptr + 1`.
use ostep_code.Prelude.{
  ◌+◌, ◌%◌, ◌≡◌, refl, Option, none, some, if◌then◌else◌, ℤ, pos, List, [], ◌∷◌, ◌==◌, map,
  Option-cases, inl, inr,
}
use ostep_code.ProducerConsumer.{max_slots, Buffer, store, consumer, Section, produce, consume}

unfoldable pub put_cv : Buffer → ℤ → Buffer
put_cv b value = record {
  buffer = store b.buffer b.fill_ptr (pos (b.fill_ptr + 1));
  fill_ptr = (b.fill_ptr + 1) % max_slots;
  use_ptr = b.use_ptr;
  count = b.count + 1;
}

unfoldable pub producer_cv : Buffer → ℤ → Option Buffer
producer_cv b i = if b.count == max_slots then none else some (put_cv b i)

unfoldable pub step_cv : Section → Buffer → Option (Buffer × Option ℤ)
step_cv (produce i) b = elim (producer_cv b i) [ none ↦ none | some b' ↦ some (b', none) ]
step_cv consume b = elim (consumer b) [ none ↦ none | some (b', v) ↦ some (b', some v) ]

unfoldable pub run_cv : Buffer → List Section → List (Option (Option ℤ))
run_cv b [] = []
run_cv b (s ∷ sections) = elim (step_cv s b) [
  | none ↦ none ∷ run_cv b sections
  | some (b', out) ↦ some out ∷ run_cv b' sections
]

-- A section with the value it produces replaced.
abbrev pub forget : Section → Section
forget (produce i) = produce (pos 0)
forget consume = consume

step_cv-forget : (s : Section) (b : Buffer) → step_cv s b ≡ step_cv (forget s) b
unfolding step_cv producer_cv put_cv
step_cv-forget (produce i) b = refl
step_cv-forget consume b = refl

-- What is handed out does not depend on what is produced: from any buffer, each section waits or
-- hands out the same if every producer puts 0.
pub values_lost :
    (sections : List Section) (b : Buffer) → run_cv b sections ≡ run_cv b (map forget sections)
unfolding run_cv
values_lost [] b = refl
values_lost (s ∷ sections) b =
    let e = step_cv-forget s b in
    elim (Option-cases (step_cv s b)) [
      | inl w ↦ let rest = values_lost sections b in cc
      | inr ((b', out), f) ↦ let rest = values_lost sections b' in cc
    ]
