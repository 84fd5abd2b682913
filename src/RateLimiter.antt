-- ===== src/RateLimiter.antt =====
-- The in-memory rate limiter of resilience/ratelimiter/memory.py. Each call reads the clock once; the
-- reading is an argument.
pub mod Calls
pub mod TokenBucket
pub mod SlidingWindow
mod Tests
use grelmicro.Prelude.{ℕ, Bool}

-- _EVICTION_THRESHOLD
abbrev pub eviction_threshold : ℕ
eviction_threshold = 1000

pub record RateLimitResult : Type 0 where
  pub allowed : Bool
  pub limit : ℕ
  pub remaining : ℕ
  pub retry_after : ℕ
  pub reset_after : ℕ
