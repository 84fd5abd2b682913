-- ===== src/RateLimiter/TokenBucket/Bound.antt =====
-- What the token buckets of resilience/ratelimiter/memory.py grant over a run of calls, and when.
use grelmicro.Prelude.{
  ℕ, le_refl, ◌+◌, ◌-◌, ◌*◌, ◌≤◌, ◌<◌, ◌≡◌, false, ◌&&◌, some, String, List, [], ◌∷◌, leb, arith,
  if◌then◌else◌, string_eq, ◌==◌, eq_iff,
}
use grelmicro.Dict.{lookup}
use grelmicro.RateLimiter.Calls.{Call, InOrder, InOrder-le}
use grelmicro.RateLimiter.TokenBucket.{TokenBucketConfig, State, refilled, acquire, try_acquire}
use grelmicro.RateLimiter.TokenBucket.Level.{
  IsValid, refilled_later, refilled-acquire, acquire-IsValid, IsValid-later, lapse, none_lapsed,
}

module _ (c : TokenBucketConfig) where
  unfoldable pub run : List Call → State → State
  run [] state = state
  run (call ∷ calls) state = run calls (acquire c call.key call.cost call.now state).1

  -- The tokens that a run of calls is granted for a key.
  unfoldable pub granted : String → List Call → State → ℕ
  granted key [] state = 0
  granted key (call ∷ calls) state =
      let (result, state') = acquire c call.key call.cost call.now state in
      let rest = granted key calls state' in
      if call.key == key && result.allowed then call.cost * c.token + rest else rest

  granted-refilled :
      (key : String) (calls : List Call) (start finish : ℕ) (state : State)
      → IsValid start state
      → InOrder start calls finish
      → granted key calls state
        ≤ refilled c start (lookup key state) + (finish - start) * c.refill_rate
  unfolding granted
  granted-refilled key [] start finish state v o = omega arith
  granted-refilled key (call ∷ calls) start finish state v o =
      let v' = IsValid-later c start call.now state o.0 v in
      let state' = (acquire c call.key call.cost call.now state).1 in
      ground (
        arith,
        granted-refilled key calls call.now finish state'
            (acquire-IsValid c call.key call.cost call.now state v') o.1,
        refilled-acquire c call.key key call.cost call.now call.now state v' le_refl,
        none_lapsed call.now c.refill_rate,
        refilled_later c start call.now (lookup key state) (v.past key) o.0,
        lapse start call.now finish c.refill_rate o.0 (InOrder-le call.now calls finish o.1),
        eq_iff call.key key,
      )

  -- However the calls of a run are spread, a key is granted at most its capacity and what refills
  -- while they last.
  pub granted-le :
      (key : String) (calls : List Call) (start finish : ℕ) (state : State)
      → IsValid start state
      → InOrder start calls finish
      → granted key calls state ≤ c.capacity + (finish - start) * c.refill_rate
  granted-le key calls start finish state v o =
      omega (arith, granted-refilled key calls start finish state v o)

  retry_after-eq :
      (key : String) (cost now : ℕ) (state : State)
      → (acquire c key cost now state).0.allowed ≡ false
      → (acquire c key cost now state).0.retry_after
        ≡ cost * c.token - refilled c now (lookup key state)
  unfolding acquire
  retry_after-eq key cost now state r = ground arith

  -- A refusal's `retry_after` is exact, for a cost that fits the bucket: the same call is allowed
  -- at a later time if and only if that long has passed, where no other call comes between.
  pub retry_after-acquire :
      (key : String) (cost now later : ℕ) (state : State)
      → IsValid now state
      → now ≤ later
      → cost * c.token ≤ c.capacity
      → (acquire c key cost now state).0.allowed ≡ false
      → (acquire c key cost later (acquire c key cost now state).1).0.allowed
        ≡ leb (acquire c key cost now state).0.retry_after ((later - now) * c.refill_rate)
  retry_after-acquire key cost now later state v le fits r =
      let state' = (acquire c key cost now state).1 in
      let v' = IsValid-later c now later state' le (acquire-IsValid c key cost now state v) in
      ground (
        arith,
        refilled-acquire c key key cost now later state v le,
        refilled-acquire c key key cost later later state' v' le_refl,
        retry_after-eq key cost now state r,
        eq_iff key key,
      )

  -- The standalone bucket does what the adapter's strategy does, for a cost that is at least one
  -- token and fits the bucket.
  pub try_acquire-acquire :
      (key : String) (cost now : ℕ) (state : State)
      → 0 < cost * c.token
      → cost * c.token ≤ c.capacity
      → try_acquire c key (cost * c.token) now state
        ≡ some ((acquire c key cost now state).0.allowed, (acquire c key cost now state).1)
  unfolding acquire try_acquire
  try_acquire-acquire key cost now state pos fits = ground arith
