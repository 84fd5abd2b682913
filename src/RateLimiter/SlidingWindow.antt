-- ===== src/RateLimiter/SlidingWindow.antt =====
-- `_MemoryGCRA` of resilience/ratelimiter/memory.py.
--
-- The clock's unit is so small that the emission interval is whole: the window is `limit` intervals.
pub mod Enforce
pub mod Within
use grelmicro.Prelude.{
  ℕ, ◌+◌, ◌-◌, ◌*◌, ◌/◌, ◌≤◌, max, Bool, true, false, Option, none, some, String, List, [], ◌∷◌,
  leb, ltb, if◌then◌else◌, string_eq, length,
}
use grelmicro.Dict.{Dict, lookup, insert, remove, remove_all}
use grelmicro.RateLimiter.{RateLimitResult, eviction_threshold}

pub record SlidingWindowConfig : Type 0 where
  pub limit : ℕ
  pub emission_interval : ℕ

-- For each key, its theoretical arrival time.
abbrev pub State : Type 0
State = Dict String ℕ

-- `self._state.get(key, now)`
abbrev pub arrival : ℕ → Option ℕ → ℕ
arrival now none = now
arrival now (some tat) = tat

module _ (config : SlidingWindowConfig) where
  abbrev pub window : ℕ
  window = config.limit * config.emission_interval

  unfoldable pub past_keys : ℕ → State → List String
  past_keys now [] = []
  past_keys now ((k, tat) ∷ state) =
      let rest = past_keys now state in if ltb tat now then k ∷ rest else rest

  unfoldable pub maybe_evict : ℕ → State → State
  unfolding past_keys
  maybe_evict now state =
      if leb (length state) eviction_threshold
      then state
      else remove_all (past_keys now state) state

  -- `remaining < 0`, where `remaining` is `floor(diff / emission_interval + 0.5)` and `diff` is
  -- `now - (new_tat - window)`.
  abbrev pub is_over : ℕ → ℕ → Bool
  is_over new_tat now = ltb (2 * (now + window) + config.emission_interval) (2 * new_tat)

  -- That floor, where it is not below 0.
  abbrev pub remaining_at : ℕ → ℕ → ℕ
  remaining_at new_tat now =
      (2 * (now + window) + config.emission_interval - 2 * new_tat) / (2 * config.emission_interval)

  unfoldable pub acquire : String → ℕ → ℕ → State → RateLimitResult × State
  unfolding maybe_evict
  acquire key cost now state =
      let state' = maybe_evict now state in
      let tat = arrival now (lookup key state') in
      let new_tat = max tat now + config.emission_interval * cost in
      if is_over new_tat now
      then (
        record {
          allowed = false;
          limit = config.limit;
          remaining = 0;
          retry_after = new_tat - (now + window);
          reset_after = tat - now;
        },
        state',
      )
      else (
        record {
          allowed = true;
          limit = config.limit;
          remaining = remaining_at new_tat now;
          retry_after = 0;
          reset_after = new_tat - now;
        },
        insert key new_tat state',
      )

  unfoldable pub peek : String → ℕ → State → RateLimitResult
  peek key now state =
      let tat = arrival now (lookup key state) in
      let new_tat = max tat now in
      if is_over new_tat now
      then record {
        allowed = false;
        limit = config.limit;
        remaining = 0;
        retry_after = new_tat - (now + window);
        reset_after = tat - now;
      }
      else if leb (remaining_at new_tat now) 0
      then record {
        allowed = false;
        limit = config.limit;
        remaining = 0;
        retry_after = config.emission_interval + new_tat - (now + window);
        reset_after = tat - now;
      }
      else record {
        allowed = true;
        limit = config.limit;
        remaining = remaining_at new_tat now;
        retry_after = 0;
        reset_after = new_tat - now;
      }

  unfoldable pub reset : String → State → State
  reset key state = remove key state
