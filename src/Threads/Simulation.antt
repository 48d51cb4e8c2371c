-- ===== src/Threads/Simulation.antt =====
-- A program whose steps another program can follow, each by one step or by none.
use ostep_code.Prelude.{
  ℕ, suc, ◌≡◌, refl, sym, ap, ap₂, ◌∙◌, subst, ◌⊎◌, inl, inr, Option, some, ite, ℕ_discrete,
}
use ostep_code.Threads.{System, goes, Step, pick, Run, here, next, Reach}

goes_along {ℓ κ} :
    {P : Type ℓ} {Q : Type κ} (f : P → Q) (pc : ℕ → P) (i : ℕ) (p : P) (j : ℕ)
    → f (goes pc i p j) ≡ goes (λ j. f (pc j)) i (f p) j
goes_along f pc i p j =
    elim (ℕ_discrete i j) as (λ d. f (ite d p (pc j)) ≡ ite d (f p) (f (pc j))) [
      | yes e ↦ refl
      | no ne ↦ refl
    ]

goes_still {ℓ} : {P : Type ℓ} (pc : ℕ → P) (i : ℕ) (p : P) (j : ℕ) → p ≡ pc i → goes pc i p j ≡ pc j
goes_still pc i p j e = elim (ℕ_discrete i j) as (λ d. ite d p (pc j) ≡ pc j) [
  | yes eq ↦ e ∙ ap pc eq
  | no ne ↦ refl
]

-- `g` and `f` show the memory and the points of the first program as the second's, while the memory
-- is as `J` says, which each step keeps.
module _ {ℓ κ μ ν ρ} {M : Type ℓ} {P : Type κ} {N : Type μ} {Q : Type ν}
    (step_a : M → P → Option (M × P)) (step_b : N → Q → Option (N × Q)) (g : M → N) (f : P → Q)
    (J : M → Type ρ)
    (shows : (m m' : M) (p p' : P)
      → J m
      → step_a m p ≡ some (m', p')
      → J m' × (((g m' ≡ g m) × (f p' ≡ f p)) ⊎ (step_b (g m) (f p) ≡ some (g m', f p')))) where
  abbrev pub image : System M P → System N Q
  image s = record { mem = g s.mem; pc = λ i. f (s.pc i) }

  -- What the first program comes to, the second comes to.
  pub record Shown (n : ℕ) (a : System N Q) (t : System M P) : Type (ℓ ⊔ κ ⊔ μ ⊔ ν ⊔ ρ) where
    pub kept : J t.mem
    pub reached : Reach step_b n a (image t)

  image-Step :
      (n : ℕ) (a : System N Q) (s t : System M P) → Step step_a n s t → Shown n a s → Shown n a t
  image-Step n a s _ (pick i {m} {p} lt e) v =
      let r = v.reached in
      let (j, how) = shows s.mem m (s.pc i) p v.kept e in
      elim how [
        | inl (same_mem, same_at) ↦
            let still : (λ j. f (goes s.pc i p j)) ≡ (λ j. f (s.pc j)) =
              λ x j. (goes_along f s.pc i p j ∙ goes_still (λ j. f (s.pc j)) i (f p) j same_at) x in
            record {
              kept = j;
              reached =
                  subst (λ u. Reach step_b n a u)
                    (sym (ap₂ (λ m pc. record { mem = m; pc = pc }) same_mem still)) r;
            }
        | inr moves ↦
            let along : (λ j. f (goes s.pc i p j)) ≡ goes (λ j. f (s.pc j)) i (f p) =
              λ x j. goes_along f s.pc i p j x in
            record {
              kept = j;
              reached =
                  subst (λ pc. Reach step_b n a (record { mem = g m; pc = pc })) (sym along)
                    (record { steps = suc r.steps; run = next r.run (pick i lt moves) });
            }
      ]

  pub image-Run :
      {n : ℕ} {s : System M P} {k : ℕ} {t : System M P}
      → J s.mem
      → Run step_a n s k t
      → Shown n (image s) t
  image-Run j here = record { kept = j; reached = record { steps = 0; run = here } }
  image-Run {n} {s = s} j (next {t = t} {u = u} r st) =
      image-Step n (image s) t u st (image-Run j r)
