-- ===== src/RingBuffer/Mask.antt =====
-- `&` with a mask of low bits is the remainder by a power of two, and sequence numbers less than
-- a power of two apart fall on different remainders.
use ostep_code.Prelude.{
  ℕ, suc, zero, ◌+◌, ◌-◌, ◌*◌, ◌/◌, ◌%◌, ◌^◌, ◌≤◌, ◌<◌, min, ◌≡◌, sym, ap, ◌∙◌, arith, dec_lt,
}
use Prim.Native.Nat.{bit_and, digits, bit_and-bitwise}
use native.Mathlib.Nat.{
  pow-suc, one-le-pow, div-add-mod, mod-lt, mod-eq_of_lt, mul-add-mod_self_left, mul-le-mul_left,
  le_refl, mul_assoc, zero-mod,
}

-- The lowest digit of a remainder.
mod-double : (a p : ℕ) → 0 < p → a % (2 * p) ≡ (a / 2 % p) * 2 + a % 2
mod-double a p pos =
    let q = a / 2 in
    let r = q % p * 2 + a % 2 in
    let lt : r < 2 * p = omega (arith, mod-lt q pos) in
    let twice : 2 * (p * (q / p)) ≡ 2 * p * (q / p) = sym (mul_assoc 2 p (q / p)) in
    let e : a ≡ 2 * p * (q / p) + r = omega (arith, div-add-mod q p, twice) in
    ap (λ m. m % (2 * p)) e ∙ mul-add-mod_self_left (2 * p) (q / p) r ∙ mod-eq_of_lt lt

digits-mask : (n k a : ℕ) → a ≤ n → digits (λ b. 0) min n a (2 ^ k - 1) ≡ a % 2 ^ k
digits-mask zero k zero le = sym (zero-mod (2 ^ k))
digits-mask zero k (suc a) le = absurd (omega arith)
digits-mask (suc n) k zero le = sym (zero-mod (2 ^ k))
digits-mask (suc n) zero (suc a) le = omega (arith, digits-mask n zero (suc a / 2) (omega arith))
digits-mask (suc n) (suc k) (suc a) le =
    let pos = one-le-pow k 2 (omega arith) in
    let twice = pow-suc 2 k in
    let half : (2 ^ suc k - 1) / 2 ≡ 2 ^ k - 1 = omega arith in
    let low : (2 ^ suc k - 1) % 2 ≡ 1 = omega arith in
    let ih = digits-mask n k (suc a / 2) (omega arith) in
    let d = mod-double (suc a) (2 ^ k) pos in
    let same : 2 ^ suc k ≡ 2 * 2 ^ k = omega arith in
    let f = ap (λ m. suc a % m) same in
    let g = ap (λ m. digits (λ b. 0) min n (suc a / 2) m) half in omega (arith, f, d, ih, g, low)

pub bit_and-mask : (k a : ℕ) → bit_and a (2 ^ k - 1) ≡ a % 2 ^ k
bit_and-mask k a = simp bit_and-bitwise (digits-mask a k a (le_refl a))

-- Numbers less than `s` apart have different remainders by `s`.
pub mod-apart : (a b s : ℕ) → a < b → b < a + s → ¬ (a % s ≡ b % s)
mod-apart a b s lt less e = elim (dec_lt (a / s) (b / s)) [
  | yes l ↦
      omega
        (arith, div-add-mod a s, div-add-mod b s, mul-le-mul_left {m = suc (a / s)} {n = b / s} s l)
  | no nl ↦ omega (
    arith,
    div-add-mod a s,
    div-add-mod b s,
    mul-le-mul_left {m = b / s} {n = a / s} s (omega arith),
  )
]
