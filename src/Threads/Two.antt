-- ===== src/Threads/Two.antt =====
-- Programs of two threads: an invariant of the memory and the two program points, and runs that
-- are built step by step.
use ostep_code.Prelude.{ℕ, zero, suc, ◌<◌, ◌≡◌, refl, sym, ap, ◌∙◌, subst, Option, some, arith}
use ostep_code.Threads.{System, goes, goes_here, goes_other, Step, pick, Run, here, next, Run-inv}

module _ {ℓ κ} {M : Type ℓ} {P : Type κ} (step : M → P → Option (M × P)) where
  -- What each thread's steps keep holds in every state that is reached.
  module _ {ν} (J : M → P → P → Type ν)
      (first : (m m' : M) (p p' q : P) → J m p q → step m p ≡ some (m', p') → J m' p' q)
      (second : (m m' : M) (p q q' : P) → J m p q → step m q ≡ some (m', q') → J m' p q') where
    two_step :
        {s t : System M P} → Step step 2 s t → J s.mem (s.pc 0) (s.pc 1) → J t.mem (t.pc 0) (t.pc 1)
    two_step {s} (pick zero {m} {p} lt e) j =
        let k = first s.mem m (s.pc 0) p (s.pc 1) j e in
        subst (λ q. J m (goes s.pc 0 p 0) q) (sym (goes_other s.pc 0 1 p (omega arith)))
          (subst (λ q. J m q (s.pc 1)) (sym (goes_here s.pc 0 p)) k)
    two_step {s} (pick (suc zero) {m} {p} lt e) j =
        let k = second s.mem m (s.pc 0) (s.pc 1) p j e in
        subst (λ q. J m q (goes s.pc 1 p 1)) (sym (goes_other s.pc 1 0 p (omega arith)))
          (subst (λ q. J m (s.pc 0) q) (sym (goes_here s.pc 1 p)) k)
    two_step (pick (suc (suc i)) lt e) j = absurd (omega arith)

    pub two-inv :
        {s t : System M P} {k : ℕ}
        → J s.mem (s.pc 0) (s.pc 1)
        → Run step 2 s k t
        → J t.mem (t.pc 0) (t.pc 1)
    two-inv j r = Run-inv step 2 (λ s. J s.mem (s.pc 0) (s.pc 1)) (λ t u st v. two_step st v) j r

  -- From `start` the program can come to the memory `m`, the two threads at `p` and `q`.
  pub record Reaches (start : System M P) (m : M) (p q : P) : Type (ℓ ⊔ κ) where
    pub steps : ℕ
    pub state : System M P
    pub run : Run step 2 start steps state
    pub mem : state.mem ≡ m
    pub first_at : state.pc 0 ≡ p
    pub second_at : state.pc 1 ≡ q

  pub starts : (s : System M P) → Reaches s s.mem (s.pc 0) (s.pc 1)
  starts s = record {
    steps = 0;
    state = s;
    run = here;
    mem = refl;
    first_at = refl;
    second_at = refl;
  }

  module _ {start : System M P} {m : M} {p q : P} (m' : M) (r : Reaches start m p q) where
    pub first_moves : (p' : P) → step m p ≡ some (m', p') → Reaches start m' p' q
    first_moves p' e =
        let e' = ap (λ m. step m (r.state.pc 0)) r.mem ∙ ap (step m) r.first_at ∙ e in
        record {
          steps = suc r.steps;
          state = record { mem = m'; pc = goes r.state.pc 0 p' };
          run = next r.run (pick 0 (omega arith) e');
          mem = refl;
          first_at = goes_here r.state.pc 0 p';
          second_at = goes_other r.state.pc 0 1 p' (omega arith) ∙ r.second_at;
        }

    pub second_moves : (q' : P) → step m q ≡ some (m', q') → Reaches start m' p q'
    second_moves q' e =
        let e' = ap (λ m. step m (r.state.pc 1)) r.mem ∙ ap (step m) r.second_at ∙ e in
        record {
          steps = suc r.steps;
          state = record { mem = m'; pc = goes r.state.pc 1 q' };
          run = next r.run (pick 1 (omega arith) e');
          mem = refl;
          first_at = goes_other r.state.pc 1 0 q' (omega arith) ∙ r.first_at;
          second_at = goes_here r.state.pc 1 q';
        }

    -- What the state that is reached looks like to the step function.
    pub at_state : (x : P) → step r.state.mem x ≡ step m x
    at_state x = ap (λ m. step m x) r.mem

-- What holds of threads 0 and 1 holds of every thread of two.
pub of_two {ν} : (Q : ℕ → Type ν) → Q 0 → Q 1 → (i : ℕ) → i < 2 → Q i
of_two Q a b zero h = a
of_two Q a b (suc zero) h = b
of_two Q a b (suc (suc i)) h = absurd (omega arith)
