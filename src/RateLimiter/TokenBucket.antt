-- ===== src/RateLimiter/TokenBucket.antt =====
-- `MemoryTokenBucket` and `_MemoryTokenBucket` of resilience/ratelimiter/memory.py.
--
-- A tick is the clock's unit. Tokens are counted in units so small that `refill_rate`, the units of
-- a tick, is whole; `token` is the units of one token, and `capacity` is in units. The durations of
-- a result are quotients by `refill_rate` in the source; here they are the dividends.
pub mod Level
pub mod Bound
use grelmicro.Prelude.{
  ℕ, zero, ◌+◌, ◌-◌, ◌*◌, ◌/◌, ◌≤◌, min, Bool, true, false, ◌||◌, Option, none, some, String, List,
  [], ◌∷◌, leb, ltb, if◌then◌else◌, string_eq, length,
}
use grelmicro.Dict.{Dict, lookup, insert, remove, remove_all}
use grelmicro.RateLimiter.{RateLimitResult, eviction_threshold}

pub record TokenBucketConfig : Type 0 where
  pub capacity : ℕ
  pub refill_rate : ℕ
  pub token : ℕ

-- For each key: the tokens, and the time they were counted at.
abbrev pub State : Type 0
State = Dict String (ℕ × ℕ)

module _ (config : TokenBucketConfig) where
  -- The clock is monotonic and the calls come in the order of their readings, and so `now - last`
  -- does not stop at 0. That a thread reads the clock and waits for the lock while another, which
  -- read it later, has it, is not modelled.
  abbrev pub refill : ℕ → ℕ → ℕ → ℕ
  refill tokens last now = min config.capacity (tokens + (now - last) * config.refill_rate)

  abbrev pub stored : ℕ → Option (ℕ × ℕ) → ℕ × ℕ
  stored now none = (config.capacity, now)
  stored now (some bucket) = bucket

  -- The tokens of a bucket at a time.
  abbrev pub refilled : ℕ → Option (ℕ × ℕ) → ℕ
  refilled now bucket = let (tokens, last) = stored now bucket in refill tokens last now

  unfoldable pub full_keys : ℕ → State → List String
  full_keys now [] = []
  full_keys now ((k, (tokens, last)) ∷ state) =
      let rest = full_keys now state in
      if leb config.capacity (refill tokens last now) then k ∷ rest else rest

  unfoldable pub maybe_evict : ℕ → State → State
  unfolding full_keys
  maybe_evict now state =
      if leb (length state) eviction_threshold
      then state
      else remove_all (full_keys now state) state

  unfoldable pub acquire : String → ℕ → ℕ → State → RateLimitResult × State
  unfolding maybe_evict
  acquire key cost now state =
      let tokens = refilled now (lookup key state) in
      if leb (cost * config.token) tokens
      then (
        record {
          allowed = true;
          limit = config.capacity / config.token;
          remaining = (tokens - cost * config.token) / config.token;
          retry_after = 0;
          reset_after = config.capacity - (tokens - cost * config.token);
        },
        maybe_evict now (insert key (tokens - cost * config.token, now) state),
      )
      else (
        record {
          allowed = false;
          limit = config.capacity / config.token;
          remaining = tokens / config.token;
          retry_after = cost * config.token - tokens;
          reset_after = config.capacity - tokens;
        },
        maybe_evict now (insert key (tokens, now) state),
      )

  unfoldable pub peek : String → ℕ → State → RateLimitResult
  peek key now state =
      let tokens = refilled now (lookup key state) in
      if leb config.token tokens
      then record {
        allowed = true;
        limit = config.capacity / config.token;
        remaining = tokens / config.token;
        retry_after = 0;
        reset_after = config.capacity - tokens;
      }
      else record {
        allowed = false;
        limit = config.capacity / config.token;
        remaining = tokens / config.token;
        retry_after = config.token - tokens;
        reset_after = config.capacity - tokens;
      }

  unfoldable pub reset : String → State → State
  reset key state = remove key state

  -- `MemoryTokenBucket.try_acquire`, whose cost is in units; none where it raises ValueError.
  unfoldable pub try_acquire : String → ℕ → ℕ → State → Option (Bool × State)
  unfolding maybe_evict
  try_acquire key cost now state =
      let tokens = refilled now (lookup key state) in
      if leb cost zero || ltb config.capacity cost
      then none
      else if leb cost tokens
      then some (true, maybe_evict now (insert key (tokens - cost, now) state))
      else some (false, maybe_evict now (insert key (tokens, now) state))
