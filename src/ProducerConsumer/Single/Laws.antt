-- ===== src/ProducerConsumer/Single/Laws.antt =====
-- Theorems about the two threads of the one-slot buffer.
use ostep_code.Prelude.{
  ap₂, ap, subst, sym, ◌∙◌, ℕ_discrete, ◌⊎◌, inl, inr, ◌≢◌, ℕ, suc, ◌+◌, ◌≤◌, ◌<◌, ◌≡◌, refl, List,
  [], ◌∷◌, arith,
}
use ostep_code.Heap.{Outcome, done, fault, timeout}
use ostep_code.ProducerConsumer.Single.{
  Phase, ready, waiting, woken, Spsc, spsc_init, put_one, get_one, signal, produce_one, consume_one,
  producer_move, consumer_move, Who, producing, consuming, move, moves, countdown,
}

-- A thread waits only while the other has something to do, and what was put and not yet taken
-- stands in the slot.
pub record Sound (s : Spsc) : Type 0 where
  pub bounded : s.count ≤ 1
  pub counted : s.i ≡ s.taken + s.count
  pub held : s.count ≡ 1 → s.buffer ≡ s.taken
  pub in_order : s.printed ≡ countdown s.taken
  pub producer_waiting : s.producer ≡ waiting → s.count ≡ 1
  pub producer_woken : s.producer ≡ woken → s.count ≡ 0
  pub consumer_waiting : s.consumer ≡ waiting → s.count ≡ 0
  pub consumer_woken : s.consumer ≡ woken → s.count ≡ 1

signal_waiting : (p : Phase) → signal p ≢ waiting
signal_waiting ready = ground arith
signal_waiting waiting = ground arith
signal_waiting woken = ground arith

produce_one-Sound :
    (s : Spsc) → Sound s → s.count ≡ 0 → (s' : Spsc) × (produce_one s ≡ done s') × Sound s'
unfolding produce_one put_one
produce_one-Sound s h z = (
  record s { count = 1; buffer = s.i; i = s.i + 1; producer = ready; consumer = signal s.consumer },
  ground arith,
  record {
    bounded = omega arith;
    counted = omega (arith, h.counted);
    held = λ e. omega (arith, h.counted);
    in_order = h.in_order;
    producer_waiting = λ e. ground arith;
    producer_woken = λ e. ground arith;
    consumer_waiting = λ e. absurd (signal_waiting s.consumer e);
    consumer_woken = λ e. refl;
  },
)

consume_one-Sound :
    (s : Spsc) → Sound s → s.count ≡ 1 → (s' : Spsc) × (consume_one s ≡ done s') × Sound s'
unfolding consume_one get_one countdown
consume_one-Sound s h z = (
  record s {
    count = 0;
    taken = suc s.taken;
    printed = s.buffer ∷ s.printed;
    consumer = ready;
    producer = signal s.producer;
  },
  ground arith,
  record {
    bounded = omega arith;
    counted = omega (arith, h.counted);
    held = λ e. ground arith;
    in_order = ap₂ (◌∷◌) (h.held z) h.in_order;
    producer_waiting = λ e. absurd (signal_waiting s.producer e);
    producer_woken = λ e. refl;
    consumer_waiting = λ e. ground arith;
    consumer_woken = λ e. ground arith;
  },
)

Phase-cases : (p : Phase) → (p ≡ ready) ⊎ (p ≡ waiting) ⊎ (p ≡ woken)
Phase-cases ready = inl refl
Phase-cases waiting = inr (inl refl)
Phase-cases woken = inr (inr refl)

Sound-producer_move :
    (loops : ℕ) (s : Spsc) → Sound s → (s' : Spsc) × (producer_move loops s ≡ done s') × Sound s'
unfolding producer_move
Sound-producer_move loops s h = elim (Phase-cases s.producer) [
  | inl r ↦ elim (ℕ_discrete s.i loops) [
    | yes e ↦ (s, ground arith, h)
    | no ne ↦ elim (ℕ_discrete s.count 1) [
      | yes one ↦ (
        record s { producer = waiting },
        ground arith,
        record {
          bounded = h.bounded;
          counted = h.counted;
          held = h.held;
          in_order = h.in_order;
          producer_waiting = λ e. one;
          producer_woken = λ e. ground arith;
          consumer_waiting = h.consumer_waiting;
          consumer_woken = h.consumer_woken;
        },
      )
      | no nz ↦
          let (s', e, h') = produce_one-Sound s h (omega (arith, h.bounded)) in
          (s', ground arith, h')
    ]
  ]
  | inr (inl w) ↦ (s, ground arith, h)
  | inr (inr w) ↦
      let (s', e, h') = produce_one-Sound s h (h.producer_woken w) in (s', ground arith, h')
]

Sound-consumer_move :
    (loops : ℕ) (s : Spsc) → Sound s → (s' : Spsc) × (consumer_move loops s ≡ done s') × Sound s'
unfolding consumer_move
Sound-consumer_move loops s h = elim (Phase-cases s.consumer) [
  | inl r ↦ elim (ℕ_discrete s.taken loops) [
    | yes e ↦ (s, ground arith, h)
    | no ne ↦ elim (ℕ_discrete s.count 0) [
      | yes z ↦ (
        record s { consumer = waiting },
        ground arith,
        record {
          bounded = h.bounded;
          counted = h.counted;
          held = h.held;
          in_order = h.in_order;
          consumer_waiting = λ e. z;
          consumer_woken = λ e. ground arith;
          producer_waiting = h.producer_waiting;
          producer_woken = h.producer_woken;
        },
      )
      | no nz ↦
          let (s', e, h') = consume_one-Sound s h (omega (arith, h.bounded)) in
          (s', ground arith, h')
    ]
  ]
  | inr (inl w) ↦ (s, ground arith, h)
  | inr (inr w) ↦
      let (s', e, h') = consume_one-Sound s h (h.consumer_woken w) in (s', ground arith, h')
]

Sound-move :
    (loops : ℕ) (w : Who) (s : Spsc) → Sound s → (s' : Spsc) × (move loops w s ≡ done s') × Sound s'
unfolding move
Sound-move loops producing s h = Sound-producer_move loops s h
Sound-move loops consuming s h = Sound-consumer_move loops s h

Sound-moves :
    (loops : ℕ) (ws : List Who) (s : Spsc)
    → Sound s
    → (s' : Spsc) × (moves loops ws s ≡ done s') × Sound s'
unfolding moves
Sound-moves loops [] s h = (s, refl, h)
Sound-moves loops (w ∷ ws) s h =
    let (t, e, held) = Sound-move loops w s h in
    let (s', f, held') = Sound-moves loops ws t held in (s', rw (e, f) refl, held')

spsc_init-Sound : Sound spsc_init
unfolding countdown
spsc_init-Sound = record {
  bounded = omega arith;
  counted = refl;
  held = λ e. ground arith;
  in_order = refl;
  producer_waiting = λ e. ground arith;
  producer_woken = λ e. ground arith;
  consumer_waiting = λ e. ground arith;
  consumer_woken = λ e. ground arith;
}

-- Without spurious wake-ups, whatever the order in which the producer and the consumer get the
-- lock, no `assert` fails, and the consumer prints 0, 1, 2 and so on: each value that was put once
-- and in order, up to one that still stands in the slot.
pub exchange_in_order :
    (loops : ℕ) (ws : List Who)
    → (s : Spsc) × (moves loops ws spsc_init ≡ done s)
      × (s.printed ≡ countdown s.taken)
      × (s.taken ≤ s.i)
      × (s.i ≤ s.taken + 1)
exchange_in_order loops ws =
    let (s, e, h) = Sound-moves loops ws spsc_init spsc_init-Sound in
    (s, e, h.in_order, omega (arith, h.counted), omega (arith, h.counted, h.bounded))

result : Outcome Spsc → Spsc
result (done s) = s
result fault = spsc_init
result timeout = spsc_init

stuck :
    (loops : ℕ) (s : Spsc)
    → Sound s
    → s.taken < loops
    → producer_move loops s ≡ done s
    → consumer_move loops s ≡ done s
    → ⊥
unfolding producer_move consumer_move produce_one consume_one put_one get_one result
stuck loops s h lt p c =
    let pi = ap (λ o. (result o).i) p in
    let pp = ap (λ o. (result o).producer) p in
    let ct = ap (λ o. (result o).taken) c in
    let cc_ = ap (λ o. (result o).consumer) c in
    elim (ℕ_discrete s.count 0) [
      | yes z ↦ elim (Phase-cases s.producer) [
        | inl r ↦ ground (arith, h.counted)
        | inr (inl w) ↦ ground (arith, h.producer_waiting w)
        | inr (inr w) ↦ ground (arith)
      ]
      | no nz ↦ elim (Phase-cases s.consumer) [
        | inl r ↦ ground (arith, h.bounded)
        | inr (inl w) ↦ ground (arith, h.consumer_waiting w)
        | inr (inr w) ↦ ground (arith, h.bounded)
      ]
    ]

-- While the consumer has not printed all values, one of the two threads can move: no wake-up is
-- lost.
pub no_deadlock :
    (loops : ℕ) (ws : List Who) (s : Spsc)
    → moves loops ws spsc_init ≡ done s
    → s.taken < loops
    → ¬ ((move loops producing s ≡ done s) × (move loops consuming s ≡ done s))
unfolding move result
no_deadlock loops ws s r lt (p, c) =
    let (t, e, h) = Sound-moves loops ws spsc_init spsc_init-Sound in
    let same : t ≡ s = ap result (sym e ∙ r) in stuck loops s (subst Sound same h) lt p c
