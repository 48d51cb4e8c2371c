-- ===== src/ProducerConsumer/Single.antt =====
-- threads-locks/c++11-Producer-consumer/SingleProducerSingleConsumer.cpp: one slot, one condition
-- variable, and an `if` before `pthread_cond_wait` where a loop would stand.
-- A move is a thread's run from where it gets the lock to where it waits or gives the lock up. A
-- waiting thread moves on only when it has been signalled: there is no spurious wake-up.
pub mod Laws
use ostep_code.Prelude.{
  ap₂, ap, subst, sym, ◌∙◌, ℕ_discrete, ◌⊎◌, inl, inr, Option, ◌≢◌, ℕ, suc, zero, ◌+◌, ◌≤◌, ◌<◌,
  ◌≡◌, refl, Bool, true, false, if◌then◌else◌, ◌==◌, List, [], ◌∷◌, arith,
}
use ostep_code.Heap.{Outcome, done, fault, timeout, ◌>>=◌}

-- Where a thread stands between its moves.
pub data Phase : Type 0 where
  ready waiting woken : Phase

-- The globals, the `i` of the producer and of the consumer, and what the consumer has printed, the last first.
pub record Spsc : Type 0 where
  pub buffer : ℕ
  pub count : ℕ
  pub i : ℕ
  pub taken : ℕ
  pub producer : Phase
  pub consumer : Phase
  pub printed : List ℕ

abbrev pub spsc_init : Spsc
spsc_init = record {
  buffer = 0;
  count = 0;
  i = 0;
  taken = 0;
  producer = ready;
  consumer = ready;
  printed = [];
}

-- `put` and `get`, a failed `assert` being a fault.
unfoldable pub put_one : Spsc → ℕ → Outcome Spsc
put_one s value = if s.count == 0 then done (record s { count = 1; buffer = value }) else fault

unfoldable pub get_one : Spsc → Outcome (Spsc × ℕ)
get_one s = if s.count == 1 then done (record s { count = 0 }, s.buffer) else fault

-- `pthread_cond_signal`: the only other thread is woken if it waits.
abbrev pub signal : Phase → Phase
signal ready = ready
signal waiting = woken
signal woken = woken

-- p4 to p6.
unfoldable pub produce_one : Spsc → Outcome Spsc
produce_one s = do
  s' ← put_one s s.i
  done (record s' { i = s.i + 1; producer = ready; consumer = signal s.consumer })

-- c4 to c6, and the `printf`.
unfoldable pub consume_one : Spsc → Outcome Spsc
consume_one s = do
  (s', tmp) ← get_one s
  done (record s' {
    taken = suc s.taken;
    printed = tmp ∷ s.printed;
    consumer = ready;
    producer = signal s.producer;
  })

-- The moves of `producer`, in the loop's first `loops` rounds.
unfoldable pub producer_move : ℕ → Spsc → Outcome Spsc
producer_move loops s = elim s.producer [
  | ready ↦
      if s.i == loops
      then done s
      else if s.count == 1
      then done (record s { producer = waiting })
      else produce_one s
  | waiting ↦ done s
  | woken ↦ produce_one s
]

-- The moves of `consumer`, likewise.
unfoldable pub consumer_move : ℕ → Spsc → Outcome Spsc
consumer_move loops s = elim s.consumer [
  | ready ↦
      if s.taken == loops
      then done s
      else if s.count == 0
      then done (record s { consumer = waiting })
      else consume_one s
  | waiting ↦ done s
  | woken ↦ consume_one s
]

-- Which thread gets the lock next.
pub data Who : Type 0 where
  producing consuming : Who

unfoldable pub move : ℕ → Who → Spsc → Outcome Spsc
move loops producing s = producer_move loops s
move loops consuming s = consumer_move loops s

unfoldable pub moves : ℕ → List Who → Spsc → Outcome Spsc
moves loops [] s = done s
moves loops (w ∷ ws) s = do s' ← move loops w s; moves loops ws s'

-- The numbers below `n`, the last first.
pub countdown : ℕ → List ℕ
countdown zero = []
countdown (suc n) = n ∷ countdown n
