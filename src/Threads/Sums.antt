-- ===== src/Threads/Sums.antt =====
-- Invariants that speak of sums over the threads: what one thread's step does to the sums is all
-- that has to be looked at.
use ostep_code.Prelude.{
  ℕ, zero, suc, ◌+◌, ◌*◌, ◌≤◌, ◌<◌, ◌≡◌, ◌≢◌, ap, Option, some, none, arith, dec_lt,
}
use ostep_code.Threads.{
  System, goes, total, total-goes, le-total, total-pos, Step, pick, Run, Run-inv,
}

module _ {ℓ κ ι} {M : Type ℓ} {P : Type κ} {I : Type ι} (step : M → P → Option (M × P)) (n : ℕ)
    (w : I → P → ℕ) where
  -- The sums over the threads, one for each weight.
  abbrev pub sums : (ℕ → P) → I → ℕ
  sums pc a = total (w a) n pc

  -- A thread goes from `p` to `q`, and the sums from `t` to `t'`.
  pub record Shift (p q : P) (t t' : I → ℕ) : Type ι where
    pub part : (a : I) → w a p ≤ t a
    pub change : (a : I) → t' a + w a p ≡ t a + w a q

  pub sum-inv {ν} :
      (J : M → (I → ℕ) → Type ν)
      → ((m m' : M) (p q : P) (t t' : I → ℕ)
          → step m p ≡ some (m', q)
          → Shift p q t t'
          → J m t
          → J m' t')
      → {s u : System M P} {k : ℕ} → J s.mem (sums s.pc)
      → Run step n s k u
      → J u.mem (sums u.pc)
  sum-inv J keep j r = Run-inv step n (λ s. J s.mem (sums s.pc)) moves j r
    where
      moves : (s u : System M P) → Step step n s u → J s.mem (sums s.pc) → J u.mem (sums u.pc)
      moves s _ (pick i {m} {p} lt e) h =
          keep s.mem m (s.pc i) p (sums s.pc) (sums (goes s.pc i p)) e
            (record {
              part = λ a. le-total (w a) n s.pc i lt;
              change = λ a. total-goes (w a) n s.pc i p lt;
            })
            h

module _ {ℓ κ} {M : Type ℓ} {P : Type κ} (step : M → P → Option (M × P)) (n : ℕ) (s : System M P)
    (stuck : (i : ℕ) → i < n → step s.mem (s.pc i) ≡ none) where
  -- Where no thread has a step, no thread is at a point that always has one.
  pub stuck-zero : (w : P → ℕ) → ((p : P) → 0 < w p → step s.mem p ≢ none) → total w n s.pc ≡ 0
  stuck-zero w live = elim (dec_lt 0 (total w n s.pc)) [
    | yes pos ↦
        let (i, lt, here) = total-pos w n s.pc pos in absurd (live (s.pc i) here (stuck i lt))
    | no z ↦ omega arith
  ]

-- Where the points of weight 0 pass a test and the sum is 0, all threads pass.
pub zero-all {ℓ} :
    {P : Type ℓ} (w : P → ℕ) (n : ℕ) (pc : ℕ → P)
    → total w n pc ≡ 0
    → (i : ℕ) → i < n
    → w (pc i) ≡ 0
zero-all w n pc z i lt = omega (arith, le-total w n pc i lt)

pub total-const {ℓ} : {P : Type ℓ} (w : P → ℕ) (p : P) (n : ℕ) → total w n (λ i. p) ≡ w p * n
unfolding total
total-const w p zero = omega arith
total-const w p (suc n) = grind (arith, total-const w p n)

-- One thread at its own point, the others all at another.
pub total-one_and_rest {ℓ} :
    {P : Type ℓ} (w : P → ℕ) (pc : ℕ → P) (q : P) (n : ℕ)
    → ((i : ℕ) → pc (suc i) ≡ q)
    → total w (suc n) pc ≡ w (pc 0) + w q * n
unfolding total
total-one_and_rest w pc q zero h = omega arith
total-one_and_rest w pc q (suc n) h = grind (arith, total-one_and_rest w pc q n h, ap w (h n))

-- All threads of the same weight.
pub total_same {ℓ} :
    {P : Type ℓ} (w : P → ℕ) (c n : ℕ) (pc : ℕ → P)
    → ((i : ℕ) → i < n → w (pc i) ≡ c)
    → total w n pc ≡ c * n
unfolding total
total_same w c zero pc h = omega arith
total_same w c (suc n) pc h =
    grind (arith, h n (omega arith), total_same w c n pc (λ i lt. h i (omega arith)))
