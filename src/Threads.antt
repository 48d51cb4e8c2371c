-- ===== src/Threads.antt =====
-- Threads as interleavings. Thread `i` of `n` stands at the program point `pc i`; the scheduler picks
-- any thread that has a move. Counts of the threads at chosen points are what invariants speak of.
pub mod Two
pub mod Sums
pub mod Simulation
use ostep_code.Prelude.{
  ℕ, zero, suc, ◌+◌, ◌*◌, ◌≤◌, ◌<◌, ◌≡◌, refl, ◌≢◌, ◌⊎◌, inl, inr, subst, Bool, true, false,
  Bool-cases, Option, none, some, List, [], ◌∷◌, arith, ite, dec_lt, ℕ_discrete, ltb, if◌then◌else◌,
  lt→ltb, not_lt→ltb,
}

-- The program points after thread `i` has gone to `p`.
abbrev pub goes {ℓ} : {P : Type ℓ} → (ℕ → P) → ℕ → P → ℕ → P
goes pc i p j = ite (ℕ_discrete i j) p (pc j)

pub goes_here {ℓ} : {P : Type ℓ} (pc : ℕ → P) (i : ℕ) (p : P) → goes pc i p i ≡ p
goes_here pc i p = ground arith

pub goes_other {ℓ} : {P : Type ℓ} (pc : ℕ → P) (i j : ℕ) (p : P) → i ≢ j → goes pc i p j ≡ pc j
goes_other pc i j p ne = ground arith

module _ {ℓ} {P : Type ℓ} (w : P → ℕ) where
  -- The weight of the first `n` threads.
  pub total : ℕ → (ℕ → P) → ℕ
  total zero pc = 0
  total (suc n) pc = w (pc n) + total n pc

  total-goes_above :
      (n : ℕ) (pc : ℕ → P) (i : ℕ) (p : P) → n ≤ i → total n (goes pc i p) ≡ total n pc
  unfolding total
  total-goes_above zero pc i p h = refl
  total-goes_above (suc n) pc i p h = ground (arith, total-goes_above n pc i p)

  -- One thread's step changes the total by that thread's weight.
  pub total-goes :
      (n : ℕ) (pc : ℕ → P) (i : ℕ) (p : P)
      → i < n
      → total n (goes pc i p) + w (pc i) ≡ total n pc + w p
  unfolding total
  total-goes zero pc i p h = elim h [ ]
  total-goes (suc n) pc i p h = elim (dec_lt i n) [
    | yes lt ↦ ground (arith, total-goes n pc i p lt)
    | no last ↦ ground (arith, total-goes_above n pc i p)
  ]

  pub le-total : (n : ℕ) (pc : ℕ → P) (i : ℕ) → i < n → w (pc i) ≤ total n pc
  unfolding total
  le-total zero pc i h = elim h [ ]
  le-total (suc n) pc i h = elim (dec_lt i n) [
    | yes lt ↦ omega (arith, le-total n pc i lt)
    | no last ↦ let e : i ≡ n = omega arith in ground arith
  ]

  -- Two threads together weigh no more than all.
  pub two-le-total :
      (n : ℕ) (pc : ℕ → P) (i j : ℕ) → i < n → j < n → i ≢ j → w (pc i) + w (pc j) ≤ total n pc
  unfolding total
  two-le-total zero pc i j h k ne = elim h [ ]
  two-le-total (suc n) pc i j h k ne = elim (dec_lt i n) [
    | no last ↦ let e : i ≡ n = omega arith in ground (arith, le-total n pc j)
    | yes lt ↦ elim (dec_lt j n) [
      | yes lt' ↦ omega (arith, two-le-total n pc i j lt lt' ne)
      | no last ↦ let e : j ≡ n = omega arith in ground (arith, le-total n pc i)
    ]
  ]

  -- A positive total comes from some thread.
  pub total-pos : (n : ℕ) (pc : ℕ → P) → 0 < total n pc → (i : ℕ) × (i < n) × (0 < w (pc i))
  unfolding total
  total-pos zero pc h = elim h [ ]
  total-pos (suc n) pc h = elim (dec_lt 0 (w (pc n))) [
    | yes lt ↦ (n, omega arith, lt)
    | no z ↦ let (i, lt, p) = total-pos n pc (omega arith) in (i, omega arith, p)
  ]

  pub total-le : (b : ℕ) → ((p : P) → w p ≤ b) → (n : ℕ) (pc : ℕ → P) → total n pc ≤ b * n
  unfolding total
  total-le b h zero pc = omega arith
  total-le b h (suc n) pc = grind (arith, h (pc n), total-le b h n pc)

  pub total-zero : (n : ℕ) (pc : ℕ → P) → ((i : ℕ) → i < n → w (pc i) ≡ 0) → total n pc ≡ 0
  unfolding total
  total-zero zero pc h = refl
  total-zero (suc n) pc h =
      omega (arith, h n (omega arith), total-zero n pc (λ i lt. h i (omega arith)))

-- A weight that is never above another sums up to no more.
pub total_mono {ℓ} :
    {P : Type ℓ} (w v : P → ℕ)
    → ((p : P) → w p ≤ v p)
    → (n : ℕ) (pc : ℕ → P) → total w n pc ≤ total v n pc
unfolding total
total_mono w v h zero pc = omega arith
total_mono w v h (suc n) pc = omega (arith, h (pc n), total_mono w v h n pc)

-- Either all of the first `n` threads pass a test, or one of them fails it.
pub all_or_one {ℓ} :
    {P : Type ℓ} (test : P → Bool) (n : ℕ) (pc : ℕ → P)
    → ((i : ℕ) → i < n → test (pc i) ≡ true) ⊎ ((i : ℕ) × (i < n) × (test (pc i) ≡ false))
all_or_one test zero pc = inl (λ i h. elim h [ ])
all_or_one test (suc n) pc = elim (Bool-cases (test (pc n))) [
  | inr bad ↦ inr (n, omega arith, bad)
  | inl good ↦ elim (all_or_one test n pc) [
    | inr (i, lt, bad) ↦ inr (i, omega arith, bad)
    | inl all ↦ inl λ i h. elim (dec_lt i n) [
      | yes lt ↦ all i lt
      | no last ↦ let e : n ≡ i = omega arith in subst (λ k. test (pc k) ≡ true) e good
    ]
  ]
]

-- Shared memory and the program point of each thread.
pub record System {ℓ κ} (M : Type ℓ) (P : Type κ) : Type (ℓ ⊔ κ) where
  pub mem : M
  pub pc : ℕ → P

-- `step m p` is what a thread at `p` does next, `none` if it is blocked or has returned.
module _ {ℓ κ} {M : Type ℓ} {P : Type κ} (step : M → P → Option (M × P)) (n : ℕ) where
  pub data Step (s : System M P) : System M P → Type (ℓ ⊔ κ) where
    pick :
        (i : ℕ) {m : M} {p : P}
        → i < n
        → step s.mem (s.pc i) ≡ some (m, p)
        → Step s (record { mem = m; pc = goes s.pc i p })

  -- `k` steps, by any threads in any order.
  pub data Run (s : System M P) : ℕ → System M P → Type (ℓ ⊔ κ) where
    here : Run s zero s
    next : {k : ℕ} {t u : System M P} → Run s k t → Step t u → Run s (suc k) u

  pub Run-inv {ν} :
      (I : System M P → Type ν)
      → ((t u : System M P) → Step t u → I t → I u)
      → {s : System M P} {k : ℕ} {t : System M P} → I s
      → Run s k t
      → I t
  Run-inv I keep h here = h
  Run-inv I keep h (next {t = t} {u = u} r st) = keep t u st (Run-inv I keep h r)

  -- A measure that every step of a thread lowers bounds the length of every run.
  pub Run-bound :
      (w : P → ℕ)
      → ((m m' : M) (p p' : P) → step m p ≡ some (m', p') → w p' < w p)
      → {s : System M P} {k : ℕ} {t : System M P} → Run s k t
      → k + total w n t.pc ≤ total w n s.pc
  Run-bound w falls here = omega arith
  Run-bound w falls (next {t = t} r (pick i {m} {p} lt e)) =
      omega (arith, Run-bound w falls r, total-goes w n t.pc i p lt, falls t.mem m (t.pc i) p e)

  -- The same where the memory has a share in the measure.
  pub Run-bound_with :
      (v : M → ℕ) (w : P → ℕ)
      → ((m m' : M) (p p' : P) → step m p ≡ some (m', p') → v m' + w p' < v m + w p)
      → {s : System M P} {k : ℕ} {t : System M P} → Run s k t
      → k + v t.mem + total w n t.pc ≤ v s.mem + total w n s.pc
  Run-bound_with v w falls here = omega arith
  Run-bound_with v w falls (next {t = t} r (pick i {m} {p} lt e)) = omega (
    arith,
    Run-bound_with v w falls r,
    total-goes w n t.pc i p lt,
    falls t.mem m (t.pc i) p e,
    le-total w n t.pc i lt,
  )

  -- Thread `i` takes its next step, if it has one.
  pub turn : ℕ → System M P → System M P
  turn i s =
      if ltb i n
      then elim (step s.mem (s.pc i)) [
        | none ↦ s
        | some (m, p) ↦ record { mem = m; pc = goes s.pc i p }
      ]
      else s

  -- A whole schedule.
  unfoldable pub follow : List ℕ → System M P → System M P
  unfolding turn
  follow [] s = s
  follow (i ∷ is) s = follow is (turn i s)

  pub record Reach (s t : System M P) : Type (ℓ ⊔ κ) where
    pub steps : ℕ
    pub run : Run s steps t

  turn-Reach : (s t : System M P) (i : ℕ) → Reach s t → Reach s (turn i t)
  unfolding turn
  turn-Reach s t i r = go (dec_lt i n) (step t.mem (t.pc i)) refl
    where
      go : Dec (i < n) → (o : Option (M × P)) → step t.mem (t.pc i) ≡ o → Reach s (turn i t)
      go (no h) o e = rw (not_lt→ltb i n h) r
      go (yes h) none e = rw (lt→ltb i n h, e) r
      go (yes h) (some (m, p)) e =
          rw (lt→ltb i n h, e) (record { steps = suc r.steps; run = next r.run (pick i h e) })

  follow-Reach_from : (is : List ℕ) (s t : System M P) → Reach s t → Reach s (follow is t)
  unfolding follow
  follow-Reach_from [] s t r = r
  follow-Reach_from (i ∷ is) s t r = follow-Reach_from is s (turn i t) (turn-Reach s t i r)

  -- What a schedule computes is reached by a run.
  pub follow-Reach : (is : List ℕ) (s : System M P) → Reach s (follow is s)
  follow-Reach is s = follow-Reach_from is s s (record { steps = 0; run = here })
