-- ===== src/RateLimiter/Tests.antt =====
-- The limiter of RateLimiter/main.cpp, and the theorems at concrete calls.
use ostep_code.Prelude.{
  ℕ, ◌+◌, ◌-◌, ◌*◌, ◌/◌, ◌^◌, ◌≤◌, ◌<◌, ◌≡◌, refl, ◌↔◌, true, some, none, List, [], ◌∷◌, arith,
}
use ostep_code.RateLimiter.{RateLimiter, create, refill_tokens_locked, rate_limit, serve}
use ostep_code.RateLimiter.Bounds.{
  IsValid, rate_limit-IsValid, rate_limit_refines, bucket, take_token, refill_overflow,
  rate_limit_faults,
}
use ostep_code.RateLimiter.Rate.{granted_bound}

-- `RateLimiter rl(2,3000,1)`
abbrev limiter : RateLimiter
limiter = create 2 3000 1 10000

abbrev one_left : RateLimiter
one_left = record limiter { available_tokens = 1 }

abbrev times : List ℕ
times = 10000 ∷ 11000 ∷ 12000 ∷ 13000 ∷ 14000 ∷ 15000 ∷ 16000 ∷ []

abbrev after_times : RateLimiter
after_times = record limiter { available_tokens = 0; last_updated_time = 16000 }

serve-times : serve limiter times 0 ≡ some (after_times, 4)
unfolding serve rate_limit
serve-times = refl

limiter-IsValid : IsValid limiter
limiter-IsValid = omega arith

rate_limit-IsValid_run : IsValid one_left
unfolding rate_limit
rate_limit-IsValid_run =
    rate_limit-IsValid {r = limiter} {r' = record limiter { available_tokens = 1 }} 10500
      {ok = true} (omega arith) limiter-IsValid refl

rate_limit_refines_example : rate_limit limiter 13500 ≡ some (take_token (bucket limiter 13500))
rate_limit_refines_example =
    rate_limit_refines limiter 13500 limiter-IsValid (omega arith) (omega arith) (omega arith)
      (omega arith)

-- A bucket of 2^32 - 1 tokens that has been idle for one interval of 2^31 tokens.
abbrev large : RateLimiter
large = record {
  capacity = 2 ^ 32 - 1;
  available_tokens = 2 ^ 31 + 5;
  interval_ms = 1;
  tokens_per_period = 2 ^ 31;
  last_updated_time = 0;
}

refill_overflow_run : 5 < 2 ^ 31 + 5
unfolding refill_tokens_locked
refill_overflow_run =
    refill_overflow large (record large { available_tokens = 5; last_updated_time = 1 }) 1 refl
      (omega arith) (omega arith)

rate_limit_faults_example :
    (rate_limit (record large { interval_ms = 0 }) 1 ≡ none) ↔ (◌≡◌ {A = ℕ} 0 0)
rate_limit_faults_example = rate_limit_faults (record large { interval_ms = 0 }) 1

granted_bound_example : 4 ≤ 2 + 1 * ((16000 - 10000) / 3000)
granted_bound_example =
    granted_bound times limiter after_times 4 16000 (omega arith) (omega arith) (omega arith)
      serve-times
