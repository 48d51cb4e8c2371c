-- ===== src/Heap.antt =====
-- Objects on the heap: `new` takes a fresh address, `delete` frees one, and an access through a
-- dangling pointer is a fault. Addresses are not taken twice.
use ostep_code.Prelude.{ℕ, suc, ◌≤◌, ◌≡◌, Option, none, some, arith, ite, ℕ_discrete, List, [], ◌∷◌}

-- What a call on heap objects comes to: a result, undefined behaviour, or a loop that is not
-- through when the fuel is spent.
pub data Outcome {ℓ} (A : Type ℓ) : Type ℓ where
  done : A → Outcome A
  fault timeout : Outcome A

infixl 5 ◌>>=◌ ◌>>◌
abbrev pub ◌>>=◌ {ℓ κ} : {A : Type ℓ} {B : Type κ} → Outcome A → (A → Outcome B) → Outcome B
done a >>= f = f a
fault >>= f = fault
timeout >>= f = timeout

abbrev pub ◌>>◌ {ℓ κ} : {A : Type ℓ} {B : Type κ} → Outcome A → Outcome B → Outcome B
m >> k = m >>= λ _. k

-- `nullptr` is `none`.
abbrev pub Ptr : Type 0
Ptr = Option ℕ

pub record Node {ℓ} (A : Type ℓ) : Type ℓ where
  pub value : A
  pub next : Ptr

pub record Heap {ℓ} (A : Type ℓ) : Type ℓ where
  pub fresh : ℕ
  pub cell : ℕ → Option (Node A)

module _ {A : Type 0} where
  abbrev pub store_at : (ℕ → Option (Node A)) → ℕ → Option (Node A) → ℕ → Option (Node A)
  store_at f p n q = ite (ℕ_discrete p q) n (f q)

  abbrev pub empty_heap : Heap A
  empty_heap = record { fresh = 0; cell = λ p. none }

  -- The new object's address is `h.fresh`.
  abbrev pub alloc : Heap A → Node A → Heap A
  alloc h n = record { fresh = suc h.fresh; cell = store_at h.cell h.fresh (some n) }

  abbrev pub load : Heap A → Ptr → Outcome (Node A)
  load h none = fault
  load h (some p) = elim (h.cell p) [ none ↦ fault | some n ↦ done n ]

  -- `delete` of a null pointer does nothing; of a dangling one it is a fault.
  abbrev pub free : Heap A → Ptr → Outcome (Heap A)
  free h none = done h
  free h (some p) = elim (h.cell p) [
    | none ↦ fault
    | some n ↦ done (record h { cell = store_at h.cell p none })
  ]

  -- `p->next = n`
  abbrev pub set_next : Heap A → ℕ → Ptr → Outcome (Heap A)
  set_next h p n = elim (h.cell p) [
    | none ↦ fault
    | some old ↦ done (record h { cell = store_at h.cell p (some (record old { next = n })) })
  ]

  -- No object stands at an address that has not been taken.
  abbrev pub IsTidy : Heap A → Type 0
  IsTidy h = (p : ℕ) → h.fresh ≤ p → h.cell p ≡ none

  -- From `p` on the heap holds the values `xs`, up to a null pointer.
  abbrev pub Chain : Heap A → Ptr → List A → Type 0
  Chain h p [] = p ≡ none
  Chain h p (x ∷ xs) =
      (a : ℕ) × (next : Ptr) × (p ≡ some a)
      × (h.cell a ≡ some (record { value = x; next = next }))
      × Chain h next xs

  pub alloc-IsTidy : (h : Heap A) (n : Node A) → IsTidy h → IsTidy (alloc h n)
  alloc-IsTidy h n t p le = ground (arith, t p)

  -- A new object leaves the chains as they are.
  pub alloc-Chain :
      (h : Heap A) (n : Node A) (p : Ptr) (xs : List A)
      → IsTidy h
      → Chain h p xs
      → Chain (alloc h n) p xs
  alloc-Chain h n p [] t c = c
  alloc-Chain h n p (x ∷ xs) t (a, next, e, c, rest) =
      (a, next, e, ground (arith, t h.fresh), alloc-Chain h n next xs t rest)
