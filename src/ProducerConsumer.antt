-- ===== src/ProducerConsumer.antt =====
-- threads-locks/c++11-Producer-consumer/MultiProducerMultiConsumerBuffer.cpp: a circular buffer,
-- a lock and two condition variables. What a thread does between taking the lock and giving it
-- back is one section; a section that would wait has no result, the lock is given up and the
-- loop's test is made anew after any wake-up, a spurious one too.
pub mod Laws
pub mod SingleCv
pub mod Single
mod Tests
use ostep_code.Prelude.{
  ℕ, suc, zero, ◌+◌, ◌-◌, ◌%◌, ◌≤◌, ◌≡◌, Bool, true, false, Option, none, some, if◌then◌else◌, ℤ,
  pos, List, [], ◌∷◌, ◌==◌, ite, ℕ_discrete,
}

-- `MAX`
abbrev pub max_slots : ℕ
max_slots = 1000

-- The globals. The counters never leave the range of an `int`: `count_le_max` of Laws.
pub record Buffer : Type 0 where
  pub buffer : ℕ → ℤ
  pub fill_ptr : ℕ
  pub use_ptr : ℕ
  pub count : ℕ

abbrev pub empty_buffer : Buffer
empty_buffer = record { buffer = λ i. pos 0; fill_ptr = 0; use_ptr = 0; count = 0 }

abbrev pub store : (ℕ → ℤ) → ℕ → ℤ → ℕ → ℤ
store f i v j = ite (ℕ_discrete i j) v (f j)

unfoldable pub put : Buffer → ℤ → Buffer
put b value = record {
  buffer = store b.buffer b.fill_ptr value;
  fill_ptr = (b.fill_ptr + 1) % max_slots;
  use_ptr = b.use_ptr;
  count = b.count + 1;
}

unfoldable pub get : Buffer → Buffer × ℤ
get b =
    let tmp = b.buffer b.use_ptr in
    (record b { use_ptr = (b.use_ptr + 1) % max_slots; count = b.count - 1 }, tmp)

-- p1 to p6 of `producer`.
unfoldable pub producer : Buffer → ℤ → Option Buffer
producer b i = if b.count == max_slots then none else some (put b i)

-- c1 to c7 of `consumer`.
unfoldable pub consumer : Buffer → Option (Buffer × ℤ)
consumer b = if b.count == 0 then none else some (get b)

-- The sections in the order in which the threads hold the lock.
pub data Section : Type 0 where
  produce : ℤ → Section
  consume : Section

-- What a section does to the buffer, and what it hands out.
unfoldable pub step : Section → Buffer → Option (Buffer × Option ℤ)
step (produce i) b = elim (producer b i) [ none ↦ none | some b' ↦ some (b', none) ]
step consume b = elim (consumer b) [ none ↦ none | some (b', v) ↦ some (b', some v) ]

-- A section that waits leaves the buffer to the next. The list says what each section did:
-- nothing if it waits.
pub run : Buffer → List Section → List (Option (Option ℤ))
run b [] = []
run b (s ∷ sections) = elim (step s b) [
  | none ↦ none ∷ run b sections
  | some (b', out) ↦ some out ∷ run b' sections
]
