-- ===== src/RingBuffer/Slots.antt =====
-- What it is for the ring to hold a list, and that the two claims of a node keep it.
use ostep_code.Prelude.{
  ap₂, ℕ, suc, zero, ◌+◌, ◌-◌, ◌*◌, ◌%◌, ◌^◌, ◌≤◌, ◌<◌, ◌≡◌, refl, sym, ap, ◌∙◌, ◌⊎◌, inl, inr,
  some, ℤ, List, [], ◌∷◌, ◌++◌, arith, length, length_snoc, get_elem?, dec_lt,
}
use ostep_code.RingBuffer.{word, Slot, Ring, node_at, set_node, fill_node, empty_node}
use ostep_code.RingBuffer.Mask.{bit_and-mask, mod-apart}
use Prim.Native.Nat.{bit_and}
use native.Mathlib.Nat.{add-mod_right}

-- The ring has 2^`bits` slots, and `size` as it stands in the code.
pub record HasMask (size mask : ℕ) : Type 0 where
  pub bits : ℕ
  pub power : size ≡ 2 ^ bits
  pub large : 2 ≤ size
  pub masked : mask ≡ size - 1

-- The ring holds `xs`, the oldest first: its size is a power of two, and the numbers, two rounds
-- ahead too, stay below 2^63.
pub record Holds (r : Ring) (xs : List ℤ) : Type 0 where
  pub has_mask : HasMask r.size r.mask
  pub room : r.head_seq + 2 * r.size < 2 ^ 63
  pub count : r.head_seq ≡ r.tail_seq + length xs
  pub fits : length xs ≤ r.size
  pub full :
      (j : ℕ) (x : ℤ)
      → get_elem? xs j ≡ some x
      → node_at r (r.tail_seq + j) ≡ record { value = x; seq = r.tail_seq + j + 1 }
  pub free :
      (j : ℕ) → length xs ≤ j → j < r.size → (node_at r (r.tail_seq + j)).seq ≡ r.tail_seq + j

pub masked_lem : (r : Ring) (a : ℕ) → HasMask r.size r.mask → bit_and a r.mask ≡ a % r.size
masked_lem r a h =
    let e : r.mask ≡ 2 ^ h.bits - 1 = omega (arith, h.power, h.masked) in
    ap (bit_and a) e ∙ bit_and-mask h.bits a ∙ ap (λ m. a % m) (sym h.power)

node_at_self : (r : Ring) (a : ℕ) (n : Slot) → node_at (set_node r a n) a ≡ n
node_at_self r a n = ground arith

node_at_other :
    (r : Ring) (a b : ℕ) (n : Slot)
    → HasMask r.size r.mask
    → a < b
    → b < a + r.size
    → node_at (set_node r a n) b ≡ node_at r b
node_at_other r a b n h lt less =
    ground (arith, masked_lem r a h, masked_lem r b h, mod-apart a b r.size lt less)

node_at_before :
    (r : Ring) (a b : ℕ) (n : Slot)
    → HasMask r.size r.mask
    → b < a
    → a < b + r.size
    → node_at (set_node r a n) b ≡ node_at r b
node_at_before r a b n h lt less =
    ground (arith, masked_lem r a h, masked_lem r b h, mod-apart b a r.size lt less)

-- A lap later the same slot is reached.
pub node_at_lap : (r : Ring) (a : ℕ) → HasMask r.size r.mask → node_at r (a + r.size) ≡ node_at r a
node_at_lap r a h =
    ap r.buffer (masked_lem r (a + r.size) h ∙ add-mod_right a r.size ∙ sym (masked_lem r a h))

get_elem?_lt : (xs : List ℤ) (j : ℕ) (x : ℤ) → get_elem? xs j ≡ some x → j < length xs
get_elem?_lt [] j x e = ground arith
get_elem?_lt (y ∷ xs) zero x e = omega arith
get_elem?_lt (y ∷ xs) (suc j) x e = omega (arith, get_elem?_lt xs j x e)

get_elem?_snoc :
    (xs : List ℤ) (v : ℤ) (j : ℕ) (x : ℤ)
    → get_elem? (xs ++ v ∷ []) j ≡ some x
    → (get_elem? xs j ≡ some x) ⊎ (j ≡ length xs) × (x ≡ v)
get_elem?_snoc [] v zero x e = inr (refl, ground arith)
get_elem?_snoc [] v (suc j) x e = ground arith
get_elem?_snoc (y ∷ xs) v zero x e = inl e
get_elem?_snoc (y ∷ xs) v (suc j) x e = elim (get_elem?_snoc xs v j x e) [
  | inl f ↦ inl f
  | inr (f, g) ↦ inr (ap suc f, g)
]

pub fill_node-Holds :
    (r : Ring) (xs : List ℤ) (v : ℤ)
    → Holds r xs
    → length xs < r.size
    → r.head_seq + 1 + 2 * r.size < 2 ^ 63
    → Holds (fill_node r v r.head_seq) (xs ++ v ∷ [])
fill_node-Holds r xs v h lt room =
    let next : (r.head_seq + 1) % word ≡ r.head_seq + 1 = omega arith in
    let r₁ = record r { head_seq = (r.head_seq + 1) % word } in
    let mask : HasMask r.size r.mask = h.has_mask in
    let node : Slot = record { value = v; seq = (r.head_seq + 1) % word } in
    record {
      has_mask = h.has_mask;
      room = omega arith;
      count = omega (arith, h.count, length_snoc xs v);
      fits = omega (arith, length_snoc xs v);
      full = λ j x e. elim (get_elem?_snoc xs v j x e) [
        | inl f ↦
            let less = get_elem?_lt xs j x f in
            node_at_before r₁ r.head_seq (r.tail_seq + j) node mask (omega (arith, h.count))
              (omega (arith, h.count))
            ∙ h.full j x f
        | inr (f, g) ↦
            ap (node_at (fill_node r v r.head_seq)) (omega (arith, h.count, f))
            ∙ node_at_self r₁ r.head_seq node
            ∙ ap₂ (λ y s. record { value = y; seq = s }) (sym g) (omega (arith, next, h.count, f))
      ];
      free = λ j le less.
          ap (λ n. n.seq)
            (node_at_other r₁ r.head_seq (r.tail_seq + j) node mask
              (omega (arith, h.count, length_snoc xs v)) (omega (arith, h.count)))
          ∙ h.free j (omega (arith, length_snoc xs v)) less;
    }

pub empty_node-Holds :
    (r : Ring) (x : ℤ) (xs : List ℤ) → Holds r (x ∷ xs) → Holds (empty_node r r.tail_seq) xs
empty_node-Holds r x xs h =
    let next : (r.tail_seq + 1) % word ≡ r.tail_seq + 1 = omega (arith, h.count, h.room) in
    let r₁ = record r { tail_seq = (r.tail_seq + 1) % word } in
    let mask : HasMask r.size r.mask = h.has_mask in
    let lap : (r.tail_seq + r.mask + 1) % word ≡ r.tail_seq + r.size =
      omega (arith, h.count, h.room, h.has_mask.masked, h.has_mask.large) in
    let node : Slot = record {
      value = (node_at r r.tail_seq).value;
      seq = (r.tail_seq + r.mask + 1) % word;
    } in
    let shifted : (j : ℕ) → (r.tail_seq + 1) % word + j ≡ r.tail_seq + suc j =
      λ j. omega (arith, next) in
    record {
      has_mask = h.has_mask;
      room = h.room;
      count = omega (arith, h.count, next);
      fits = omega (arith, h.fits);
      full = λ j y e.
          let less = get_elem?_lt xs j y e in
          ap (node_at (empty_node r r.tail_seq)) (shifted j)
          ∙ node_at_other r₁ r.tail_seq (r.tail_seq + suc j) node mask (omega arith)
              (omega (arith, h.fits))
          ∙ h.full (suc j) y e
          ∙ ap (λ s. record { value = y; seq = s }) (omega (arith, next));
      free = λ j le less. elim (dec_lt j (r.size - 1)) [
        | yes lt ↦
            ap (λ n. (node_at (empty_node r r.tail_seq) n).seq) (shifted j)
            ∙ ap (λ n. n.seq)
                (node_at_other r₁ r.tail_seq (r.tail_seq + suc j) node mask (omega arith)
                  (omega (arith, lt)))
            ∙ h.free (suc j) (omega arith) (omega (arith, lt))
            ∙ sym (shifted j)
        | no nl ↦
            let lapped : (r.tail_seq + 1) % word + j ≡ r.tail_seq + r.size =
              omega (arith, next, nl, less) in
            ap (λ n. (node_at (empty_node r r.tail_seq) n).seq) lapped
            ∙ ap (λ n. n.seq) (node_at_lap (empty_node r r.tail_seq) r.tail_seq mask)
            ∙ ap (λ n. n.seq) (node_at_self r₁ r.tail_seq node)
            ∙ omega (arith, lap, next)
      ];
    }
