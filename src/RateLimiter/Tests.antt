-- ===== src/RateLimiter/Tests.antt =====
-- Runs of the rate limiters, and their theorems at concrete inputs.
use grelmicro.Prelude.{ℕ, ◌+◌, ◌-◌, ◌*◌, ◌≤◌, ◌≡◌, refl, List, [], ◌∷◌, arith, string_eq}
use grelmicro.Dict.{lookup, insert}
use grelmicro.RateLimiter.Calls.{Call}
use grelmicro.RateLimiter.TokenBucket
use grelmicro.RateLimiter.TokenBucket.Level
use grelmicro.RateLimiter.TokenBucket.Bound
use grelmicro.RateLimiter.SlidingWindow
use grelmicro.RateLimiter.SlidingWindow.Within

-- Two tokens, one each ten ticks.
abbrev bucket : TokenBucket.TokenBucketConfig
bucket = record { capacity = 20; refill_rate = 1; token = 10 }

-- Two requests in forty ticks.
abbrev window : SlidingWindow.SlidingWindowConfig
window = record { limit = 2; emission_interval = 20 }

abbrev call : ℕ → Call
call now = record { key = "k"; cost = 1; now = now }

abbrev calls : List Call
calls = call 0 ∷ call 1 ∷ call 2 ∷ call 12 ∷ []

-- Three of the four calls are granted: the third finds the bucket empty.
bucket_grants : Bound.granted bucket "k" calls [] ≡ 30
unfolding Bound.granted TokenBucket.acquire TokenBucket.maybe_evict lookup insert
bucket_grants = refl

empty-IsValid : Level.IsValid 0 []
unfolding lookup
empty-IsValid = record { unique = tt; past = λ k. tt }

abbrev spent : TokenBucket.State
spent = ("k", (5, 3)) ∷ []

spent-IsValid : Level.IsValid 3 spent
unfolding lookup
spent-IsValid = record { unique = (refl, tt); past = λ k. ground arith }

abbrev arrived : SlidingWindow.State
arrived = ("k", 41) ∷ []

granted-le_example : Bound.granted bucket "k" calls [] ≤ 20 + (12 - 0) * 1
granted-le_example =
    Bound.granted-le bucket "k" calls 0 12 [] empty-IsValid
      (omega arith, (omega arith, (omega arith, (omega arith, omega arith))))

-- Of four calls for one request, the window grants three within twelve ticks.
window_grants : Within.granted window "k" calls [] ≡ 60
unfolding Within.granted SlidingWindow.acquire SlidingWindow.maybe_evict lookup insert
window_grants = refl

granted_within_example :
    2 * Within.granted window "k" calls [] ≤ 2 * (SlidingWindow.window window + (12 - 0)) + 20
granted_within_example =
    Within.granted_within window "k" calls 0 12
      (omega arith, (omega arith, (omega arith, (omega arith, omega arith))))
