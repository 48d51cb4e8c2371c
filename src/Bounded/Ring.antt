-- ===== src/Bounded/Ring.antt =====
-- The array of threads-cv/pc.c with its two indices and the number of full slots, and that of
-- threads-sema/producer_consumer_works.c, which takes an index back to 0 by a test.
use ostep_code.Prelude.{
  ℕ, zero, suc, ◌+◌, ◌-◌, ◌%◌, ◌≤◌, ◌<◌, ◌≡◌, ◌⊎◌, refl, sym, subst, length, ap, ap₂, ◌∙◌, ◌==◌,
  if◌then◌else◌, ite, ℕ_discrete, ℤ, pos, List, [], ◌∷◌, ◌++◌, arith,
}
use native.Mathlib.Nat.{mod-eq_of_lt, mod_self}
use ostep_code.Bounded.{Ops}

pub record Ring : Type 0 where
  pub buffer : ℕ → ℤ
  pub use_ptr : ℕ
  pub fill_ptr : ℕ
  pub num_full : ℕ

abbrev pub store : (ℕ → ℤ) → ℕ → ℤ → ℕ → ℤ
store f i v j = ite (ℕ_discrete i j) v (f j)

-- The start of `main`: an array of zeros.
abbrev pub empty_ring : Ring
empty_ring = record { buffer = λ i. pos 0; use_ptr = 0; fill_ptr = 0; num_full = 0 }

module _ (max : ℕ) where
  -- `do_fill` and `do_get` of pc.c
  unfoldable pub do_fill : Ring → ℤ → Ring
  do_fill r value = record r {
    buffer = store r.buffer r.fill_ptr value;
    fill_ptr = (r.fill_ptr + 1) % max;
    num_full = r.num_full + 1;
  }

  unfoldable pub do_get : Ring → Ring × ℤ
  do_get r =
      let tmp = r.buffer r.use_ptr in
      (record r { use_ptr = (r.use_ptr + 1) % max; num_full = r.num_full - 1 }, tmp)

  unfoldable pub ring : Ops Ring
  ring = record { num_full = λ r. r.num_full; do_fill = do_fill; do_get = do_get }

-- The globals `buffer`, `use` and `fill` of producer_consumer_works.c, where the semaphores do the counting.
pub record Globals : Type 0 where
  pub buffer : ℕ → ℤ
  pub use_at : ℕ
  pub fill_at : ℕ

module _ (max : ℕ) where
  -- `fill++; if (fill == max) fill = 0;`
  abbrev pub wrap : ℕ → ℕ
  wrap i = let i = i + 1 in if i == max then 0 else i

  -- `do_fill` and `do_get` of producer_consumer_works.c
  unfoldable pub do_fill_wrap : Globals → ℤ → Globals
  do_fill_wrap g value = record g {
    buffer = store g.buffer g.fill_at value;
    fill_at = wrap g.fill_at;
  }

  unfoldable pub do_get_wrap : Globals → Globals × ℤ
  do_get_wrap g = let tmp = g.buffer g.use_at in (record g { use_at = wrap g.use_at }, tmp)

  pub mod_wrap : (i : ℕ) → i < max → (i + 1) % max ≡ wrap i
  mod_wrap i h = elim (ℕ_discrete (i + 1) max) [
    | yes e ↦ ground (arith, e, mod_self max)
    | no ne ↦ let few : i + 1 < max = omega arith in ground (arith, mod-eq_of_lt few)
  ]

  -- What the array of pc.c has in common with the other.
  abbrev pub globals : Ring → Globals
  globals r = record { buffer = r.buffer; use_at = r.use_ptr; fill_at = r.fill_ptr }

  -- While the indices are in the array, the two programs put and get the same way.
  pub wrap_same :
      (r : Ring) (value : ℤ)
      → r.fill_ptr < max
      → r.use_ptr < max
      → (globals (do_fill max r value) ≡ do_fill_wrap (globals r) value)
        × (globals ((do_get max r).0) ≡ (do_get_wrap (globals r)).0)
        × ((do_get max r).1 ≡ (do_get_wrap (globals r)).1)
        × ((do_fill max r value).fill_ptr < max)
        × ((do_get max r).0.use_ptr < max)
  unfolding do_fill do_get do_fill_wrap do_get_wrap
  wrap_same r value h k = (
    ap (λ i. record { buffer = store r.buffer r.fill_ptr value; use_at = r.use_ptr; fill_at = i })
        (mod_wrap r.fill_ptr h),
    ap (λ i. record { buffer = r.buffer; use_at = i; fill_at = r.fill_ptr }) (mod_wrap r.use_ptr k),
    refl,
    ground (arith, mod_wrap r.fill_ptr h),
    ground (arith, mod_wrap r.use_ptr k),
  )

  -- The `n` values from slot `p` on, round the end of the array.
  unfoldable pub contents : (ℕ → ℤ) → ℕ → ℕ → List ℤ
  contents f p zero = []
  contents f p (suc n) = f p ∷ contents f (wrap p) n

  length-contents : (f : ℕ → ℤ) (n p : ℕ) → length (contents f p n) ≡ n
  unfolding contents
  length-contents f zero p = refl
  length-contents f (suc n) p = ap suc (length-contents f n (wrap p))

  -- Slot `q` is `n` slots after `p`.
  abbrev pub After : ℕ → ℕ → ℕ → Type 0
  After p n q = (q < max) × ((q ≡ p + n) ⊎ (q + max ≡ p + n))

  contents-store :
      (f : ℕ → ℤ) (v : ℤ) (n p q : ℕ)
      → n < max
      → p < max
      → After p n q
      → contents (store f q v) p (suc n) ≡ contents f p n ++ v ∷ []
  unfolding contents
  contents-store f v zero p q h k a = ground (arith, a)
  contents-store f v (suc n) p q h k a =
      let near : After (wrap p) n q = ground (arith, a) in
      let in_array : wrap p < max = ground arith in
      let other : store f q v p ≡ f p = ground (arith, a) in
      ap₂ (λ x xs. x ∷ xs) other (contents-store f v n (wrap p) q (omega arith) in_array near)

  -- The indices are in the array, and `num_full` slots apart.
  pub record IsRing (r : Ring) : Type 0 where
    pub in_array : r.use_ptr < max
    pub few : r.num_full ≤ max
    pub apart : After r.use_ptr r.num_full r.fill_ptr

  abbrev pub values : Ring → List ℤ
  values r = contents r.buffer r.use_ptr r.num_full

  pub length-values : (r : Ring) → length (values r) ≡ r.num_full
  length-values r = length-contents r.buffer r.num_full r.use_ptr

  -- A value is put behind the others.
  pub fill_values :
      (r : Ring) (v : ℤ)
      → IsRing r
      → r.num_full < max
      → IsRing (do_fill max r v) × (values (do_fill max r v) ≡ values r ++ v ∷ [])
  unfolding do_fill
  fill_values r v h lt =
      let w = mod_wrap r.fill_ptr h.apart.0 in
      let e : r.num_full + 1 ≡ suc r.num_full = omega arith in
      (
        record { in_array = h.in_array; few = omega arith; apart = ground (arith, w, h.apart) },
        ap (contents (store r.buffer r.fill_ptr v) r.use_ptr) e
            ∙ contents-store r.buffer v r.num_full r.use_ptr r.fill_ptr lt h.in_array h.apart,
      )

  -- The first value is taken, and the others stay.
  pub get_values :
      (r : Ring)
      → IsRing r
      → 0 < r.num_full
      → IsRing ((do_get max r).0) × (values r ≡ (do_get max r).1 ∷ values ((do_get max r).0))
  unfolding do_get contents
  get_values r h lt =
      let w = mod_wrap r.use_ptr h.in_array in
      let e : r.num_full ≡ suc (r.num_full - 1) = omega arith in
      (
        record {
          in_array = ground (arith, w);
          few = omega arith;
          apart = ground (arith, w, h.apart);
        },
        ap (contents r.buffer r.use_ptr) e
            ∙ ap (λ p. r.buffer r.use_ptr ∷ contents r.buffer p (r.num_full - 1)) (sym w),
      )

  -- The array with a number of full slots, which producer_consumer_works.c does not keep.
  abbrev pub counted : Globals → ℕ → Ring
  counted g n = record { buffer = g.buffer; use_ptr = g.use_at; fill_ptr = g.fill_at; num_full = n }

  pub fill_wrap_values :
      (g : Globals) (n : ℕ) (v : ℤ)
      → IsRing (counted g n)
      → n < max
      → IsRing (counted (do_fill_wrap g v) (n + 1))
        × (values (counted (do_fill_wrap g v) (n + 1)) ≡ values (counted g n) ++ v ∷ [])
  unfolding do_fill_wrap do_fill
  fill_wrap_values g n v h lt =
      let same : do_fill max (counted g n) v ≡ counted (do_fill_wrap g v) (n + 1) =
        ap
          (λ i. record {
            buffer = store g.buffer g.fill_at v;
            use_ptr = g.use_at;
            fill_ptr = i;
            num_full = n + 1;
          })
          (mod_wrap g.fill_at h.apart.0) in
      subst (λ r. IsRing r × (values r ≡ values (counted g n) ++ v ∷ [])) same
        (fill_values (counted g n) v h lt)

  pub get_wrap_values :
      (g : Globals) (n : ℕ)
      → IsRing (counted g n)
      → 0 < n
      → IsRing (counted ((do_get_wrap g).0) (n - 1))
        × (values (counted g n) ≡ (do_get_wrap g).1 ∷ values (counted ((do_get_wrap g).0) (n - 1)))
  unfolding do_get_wrap do_get
  get_wrap_values g n h lt =
      let same : (do_get max (counted g n)).0 ≡ counted ((do_get_wrap g).0) (n - 1) =
        ap (λ i. record { buffer = g.buffer; use_ptr = i; fill_ptr = g.fill_at; num_full = n - 1 })
          (mod_wrap g.use_at h.in_array) in
      subst (λ r. IsRing r × (values (counted g n) ≡ g.buffer g.use_at ∷ values r)) same
        (get_values (counted g n) h lt)
