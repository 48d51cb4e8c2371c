-- ===== src/RateLimiter/Bounds.antt =====
-- What each call of the rate limiter keeps, what it does on each branch, and where it wraps.
use ostep_code.Prelude.{
  ℕ, ◌+◌, ◌-◌, ◌*◌, ◌/◌, ◌%◌, ◌^◌, ◌≤◌, ◌<◌, ◌≡◌, ◌≢◌, min, ap, ltb, ◌==◌, if◌then◌else◌, ◌↔◌, Bool,
  true, false, none, some, arith,
}
use ostep_code.RateLimiter.{
  RateLimiter, elapsed_time_periods, tokens_to_add, refill_tokens_locked, rate_limit,
}

-- The fields are in the ranges of their C++ types, and the bucket is no fuller than its capacity.
pub record IsValid (r : RateLimiter) : Type 0 where
  pub capacity_fits : r.capacity < 2 ^ 32
  pub per_period_fits : r.tokens_per_period < 2 ^ 32
  pub interval_fits : r.interval_ms < 2 ^ 32
  pub time_fits : r.last_updated_time < 2 ^ 64
  pub filled : r.available_tokens ≤ r.capacity

refill-IsValid :
    {r r' : RateLimiter} (now : ℕ)
    → now < 2 ^ 64
    → IsValid r
    → refill_tokens_locked r now ≡ some r'
    → IsValid r'
unfolding refill_tokens_locked
refill-IsValid now h v e = ground arith

-- Every call keeps the bucket valid, also when the arithmetic of the refill wraps.
pub rate_limit-IsValid :
    {r r' : RateLimiter} (now : ℕ) {ok : Bool}
    → now < 2 ^ 64
    → IsValid r
    → rate_limit r now ≡ some (r', ok)
    → IsValid r'
unfolding rate_limit
rate_limit-IsValid now h v e = ground arith

-- Without wrap-around the time that has passed is `now - last`.
pub elapsed-eq :
    (r : RateLimiter) (now : ℕ)
    → r.last_updated_time ≤ now
    → now < 2 ^ 64
    → elapsed_time_periods r now ≡ (now - r.last_updated_time) / r.interval_ms
elapsed-eq r now h k = ap (λ d. d / r.interval_ms) (omega arith)

-- The textbook token bucket, over unbounded numbers.
abbrev pub earned : RateLimiter → ℕ → ℕ
earned r now = r.tokens_per_period * ((now - r.last_updated_time) / r.interval_ms)

abbrev pub bucket : RateLimiter → ℕ → RateLimiter
bucket r now = if earned r now == 0 then r else record r {
  available_tokens = min r.capacity (r.available_tokens + earned r now);
  last_updated_time = now;
}

-- One call of the textbook bucket: it takes a token if there is one after the refill.
pub take_token : RateLimiter → RateLimiter × Bool
take_token r =
    if ltb 0 r.available_tokens
    then (record r { available_tokens = r.available_tokens - 1 }, true)
    else (r, false)

-- While the clock does not go back and what has been earned fits 32 bits together with the bucket,
-- a call does what the textbook bucket does.
pub rate_limit_refines :
    (r : RateLimiter) (now : ℕ)
    → IsValid r
    → r.interval_ms ≢ 0
    → r.last_updated_time ≤ now
    → now < 2 ^ 64
    → r.available_tokens + earned r now < 2 ^ 32
    → rate_limit r now ≡ some (take_token (bucket r now))
unfolding rate_limit take_token
rate_limit_refines r now v nz later fits small = ground (arith, added, next)
  where
    added : tokens_to_add r now ≡ earned r now
    added =
        rw (elapsed-eq r now later fits)
          (let e : ℕ = earned r now in let h : e < 2 ^ 32 = omega arith in omega arith)

    next : (r.available_tokens + earned r now) % 2 ^ 32 ≡ r.available_tokens + earned r now
    next = omega arith

-- The wrap-around of the 32-bit sum: when the tokens to add take it past 2^32, the refill leaves
-- fewer tokens in the bucket than there were.
pub refill_overflow :
    (r r' : RateLimiter) (now : ℕ)
    → refill_tokens_locked r now ≡ some r'
    → r.available_tokens < 2 ^ 32
    → 2 ^ 32 ≤ r.available_tokens + tokens_to_add r now
    → r'.available_tokens < r.available_tokens
unfolding refill_tokens_locked
refill_overflow r r' now e fits over =
    ground (arith, loses r.available_tokens (tokens_to_add r now) fits below over)
  where
    below : tokens_to_add r now < 2 ^ 32
    below = omega arith

    loses : (a t : ℕ) → a < 2 ^ 32 → t < 2 ^ 32 → 2 ^ 32 ≤ a + t → (a + t) % 2 ^ 32 < a
    loses a t h k o = omega arith

-- The call fails exactly when the interval is zero, by the division.
pub rate_limit_faults :
    (r : RateLimiter) (now : ℕ) → (rate_limit r now ≡ none) ↔ (r.interval_ms ≡ 0)
unfolding rate_limit
rate_limit_faults r now = (λ e. ground arith, λ e. ground arith)
