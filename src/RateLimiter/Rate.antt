-- ===== src/RateLimiter/Rate.antt =====
-- The rate that the limiter enforces over any sequence of calls.
use native.Mathlib.Nat.{mul-div-le, le-div_iff_mul-le, mul_comm}
use ostep_code.Prelude.{
  ℕ, ◌+◌, ◌-◌, ◌*◌, ◌/◌, ◌^◌, ◌≤◌, ◌<◌, ◌≡◌, ◌≢◌, inl, inr, ap, Bool, true, false, some, List, [],
  ◌∷◌, arith, ◌==◌, Option-cases, if◌then◌else◌,
}
use ostep_code.RateLimiter.{RateLimiter, tokens_to_add, refill_tokens_locked, rate_limit, serve}
use ostep_code.RateLimiter.Bounds.{elapsed-eq}

-- Times that do not fall, from `lo` to `hi`.
abbrev pub Ascending : ℕ → List ℕ → ℕ → Type 0
Ascending lo [] hi = lo ≤ hi
Ascending lo (t ∷ times) hi = (lo ≤ t) × Ascending t times hi

Ascending-le : (lo : ℕ) (times : List ℕ) (hi : ℕ) → Ascending lo times hi → lo ≤ hi
Ascending-le lo [] hi a = a
Ascending-le lo (t ∷ times) hi a = omega (arith, Ascending-le t times hi a.1)

Ascending-lower :
    (lo lo' : ℕ) (times : List ℕ) (hi : ℕ)
    → lo' ≤ lo
    → Ascending lo times hi
    → Ascending lo' times hi
Ascending-lower lo lo' [] hi h a = omega arith
Ascending-lower lo lo' (t ∷ times) hi h a = (omega arith, a.1)

abbrev granted_by : Bool → ℕ
granted_by true = 1
granted_by false = 0

-- What one call adds: `periods` whole intervals of the time that it moves the bucket on.
record Earns (r r' : RateLimiter) (ok : Bool) (now periods : ℕ) : Type 0 where
  spent : granted_by ok + r'.available_tokens ≤ r.available_tokens + r.tokens_per_period * periods
  passed : r.interval_ms * periods + r.last_updated_time ≤ r'.last_updated_time
  late : r'.last_updated_time ≤ now
  same_rate : r'.tokens_per_period ≡ r.tokens_per_period
  same_interval : r'.interval_ms ≡ r.interval_ms

abbrev periods_of : RateLimiter → ℕ → ℕ
periods_of r now =
    if tokens_to_add r now == 0 then 0 else (now - r.last_updated_time) / r.interval_ms

tokens_to_add-le :
    (r : RateLimiter) (now : ℕ)
    → r.last_updated_time ≤ now
    → now < 2 ^ 64
    → tokens_to_add r now ≤ r.tokens_per_period * ((now - r.last_updated_time) / r.interval_ms)
tokens_to_add-le r now later fits =
    rw (elapsed-eq r now later fits) (
      let e : ℕ = r.tokens_per_period * ((now - r.last_updated_time) / r.interval_ms) in
      omega arith)

rate_limit-Earns :
    (r r' : RateLimiter) (ok : Bool) (now : ℕ)
    → r.last_updated_time ≤ now
    → now < 2 ^ 64
    → rate_limit r now ≡ some (r', ok)
    → Earns r r' ok now (periods_of r now)
unfolding rate_limit refill_tokens_locked
rate_limit-Earns r r' ok now later fits e =
    ground (
      arith,
      tokens_to_add-le r now later fits,
      mul-div-le (now - r.last_updated_time) r.interval_ms,
    )

counted :
    (granted : ℕ) (ok : Bool) → (if ok then granted + 1 else granted) ≡ granted + granted_by ok
counted granted ok = ground arith

-- The periods that a sequence of calls adds up to.
serve-earns :
    (times : List ℕ) (r r' : RateLimiter) (granted total hi : ℕ)
    → Ascending r.last_updated_time times hi
    → hi < 2 ^ 64
    → serve r times granted ≡ some (r', total)
    → (periods : ℕ) × (total + r'.available_tokens
        ≤ granted + r.available_tokens + r.tokens_per_period * periods)
      × (r.interval_ms * periods + r.last_updated_time ≤ hi)
unfolding serve
serve-earns [] r r' granted total hi a fits e = (0, ground arith, ground arith)
serve-earns (now ∷ times) r r' granted total hi a fits e = elim (Option-cases (rate_limit r now)) [
  | inl h ↦ let e' = rw h at e in cc
  | inr ((q, ok), h) ↦
      let e' = rw h at e in
      let f = rate_limit-Earns r q ok now a.0 (omega (arith, Ascending-le now times hi a.1)) h in
      let (p, b, t) =
        serve-earns times q r' (if ok then granted + 1 else granted) total hi
          (Ascending-lower now q.last_updated_time times hi f.late a.1) fits e' in
      let rate : q.tokens_per_period * p ≡ r.tokens_per_period * p = ap (λ k. k * p) f.same_rate in
      let interval : q.interval_ms * p ≡ r.interval_ms * p = ap (λ k. k * p) f.same_interval in
      (
        periods_of r now + p,
        omega (arith, b, rate, f.spent, counted granted ok),
        omega (arith, t, interval, f.passed),
      )
]

-- Over any sequence of calls whose clock does not go back, at most the tokens that were there and
-- those of the whole intervals that passed are granted, also where the arithmetic wraps.
pub granted_bound :
    (times : List ℕ) (r r' : RateLimiter) (total hi : ℕ)
    → r.interval_ms ≢ 0
    → Ascending r.last_updated_time times hi
    → hi < 2 ^ 64
    → serve r times 0 ≡ some (r', total)
    → total
      ≤ r.available_tokens + r.tokens_per_period * ((hi - r.last_updated_time) / r.interval_ms)
granted_bound times r r' total hi nz a fits e =
    let (p, b, t) = serve-earns times r r' 0 total hi a fits e in
    let whole : p ≤ (hi - r.last_updated_time) / r.interval_ms =
      (le-div_iff_mul-le (omega arith)).1 (omega (arith, mul_comm p r.interval_ms)) in
    grind (arith, whole, b)
