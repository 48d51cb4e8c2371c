-- ===== src/RateLimiter.antt =====
-- threads-locks/other-problems/IK- problems/RateLimiter: a token bucket. The clock is an argument;
-- each call runs under `mutex_`, so calls are one after the other.
pub mod Bounds
pub mod Rate
mod Tests
use ostep_code.Prelude.{
  ℕ, ◌+◌, ◌-◌, ◌*◌, ◌/◌, ◌%◌, ◌^◌, min, Bool, true, false, Option, none, some, ◌>>=◌, ◌==◌, ltb,
  if◌then◌else◌, List, [], ◌∷◌,
}

-- `uint32_t` and `uint64_t` values, as numbers below 2^32 and 2^64.
pub record RateLimiter : Type 0 where
  pub capacity : ℕ
  pub available_tokens : ℕ
  pub interval_ms : ℕ
  pub tokens_per_period : ℕ
  pub last_updated_time : ℕ

-- The constructor, at time `now`.
abbrev pub create : (capacity interval_ms tokens_per_period now : ℕ) → RateLimiter
create capacity interval_ms tokens_per_period now = record {
  capacity = capacity;
  available_tokens = capacity;
  interval_ms = interval_ms;
  tokens_per_period = tokens_per_period;
  last_updated_time = now;
}

-- `cur_time - lastUpdatedTime_` in uint64_t, over the interval.
abbrev pub elapsed_time_periods : RateLimiter → ℕ → ℕ
elapsed_time_periods r now = (now + 2 ^ 64 - r.last_updated_time) % 2 ^ 64 / r.interval_ms

-- The product is a uint64_t, and is stored in a uint32_t.
abbrev pub tokens_to_add : RateLimiter → ℕ → ℕ
tokens_to_add r now = r.tokens_per_period * elapsed_time_periods r now % 2 ^ 64 % 2 ^ 32

-- `none` is the division by zero.
pub refill_tokens_locked : RateLimiter → ℕ → Option RateLimiter
refill_tokens_locked r now =
    if r.interval_ms == 0
    then none
    else if tokens_to_add r now == 0
    then some r
    else some (record r {
      available_tokens = min r.capacity ((r.available_tokens + tokens_to_add r now) % 2 ^ 32);
      last_updated_time = now;
    })

unfoldable pub rate_limit : RateLimiter → ℕ → Option (RateLimiter × Bool)
unfolding refill_tokens_locked
rate_limit r now = do
  r' ← refill_tokens_locked r now
  if ltb 0 r'.available_tokens
      then some (record r' { available_tokens = r'.available_tokens - 1 }, true)
      else some (r', false)

-- A client's calls at the given times, with the number of calls that were let through.
pub serve : RateLimiter → List ℕ → ℕ → Option (RateLimiter × ℕ)
serve r [] granted = some (r, granted)
serve r (now ∷ times) granted = do
  (r', ok) ← rate_limit r now
  serve r' times (if ok then granted + 1 else granted)
