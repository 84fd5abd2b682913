-- ===== src/RateLimiter/SlidingWindow/Within.antt =====
-- What the sliding window of resilience/ratelimiter/memory.py grants over a run of calls.
use grelmicro.Prelude.{
  ℕ, le_refl, suc, ◌+◌, ◌-◌, ◌*◌, ◌≤◌, ◌≡◌, max, true, ◌&&◌, String, List, [], ◌∷◌, arith,
  if◌then◌else◌, string_eq, ◌==◌, eq_iff,
}
use grelmicro.Dict.{lookup, Unique}
use grelmicro.RateLimiter.SlidingWindow.{SlidingWindowConfig, State, window, acquire}
use grelmicro.RateLimiter.Calls.{Call, InOrder, InOrder-le}
use grelmicro.RateLimiter.SlidingWindow.Enforce.{
  due, due-none, asked, acquire-Unique, due-acquire, due_later,
}

module _ (c : SlidingWindowConfig) where
  unfoldable pub run : List Call → State → State
  run [] state = state
  run (call ∷ calls) state = run calls (acquire c call.key call.cost call.now state).1

  -- The requests that a run of calls is granted for a key, in the time they are spaced by.
  unfoldable pub granted : String → List Call → State → ℕ
  granted key [] state = 0
  granted key (call ∷ calls) state =
      let (result, state') = acquire c call.key call.cost call.now state in
      let rest = granted key calls state' in
      if call.key == key && result.allowed then c.emission_interval * call.cost + rest else rest

  -- The arrival time is at most the window and half an interval ahead.
  abbrev pub Ahead : String → ℕ → State → Type 0
  Ahead key now state = 2 * due now (lookup key state) ≤ 2 * (now + window c) + c.emission_interval

  granted-due :
      (key : String) (calls : List Call) (start finish : ℕ) (state : State)
      → Unique state
      → Ahead key start state
      → InOrder start calls finish
      → 2 * granted key calls state + 2 * due start (lookup key state)
        ≤ 2 * (finish + window c) + c.emission_interval
  unfolding granted
  granted-due key [] start finish state u a o = omega arith
  granted-due key (call ∷ calls) start finish state u a o =
      let state' = (acquire c call.key call.cost call.now state).1 in
      ground (
        arith,
        granted-due key calls call.now finish state'
            (acquire-Unique c call.key call.cost call.now state u)
            (step key call start state u a o.0) o.1,
        due-acquire c call.key key call.cost call.now call.now state u le_refl,
        due_later c start call.now (lookup key state) o.0,
        eq_iff call.key key,
      )
    where
      step :
          (key : String) (call : Call) (start : ℕ) (state : State)
          → Unique state
          → Ahead key start state
          → start ≤ call.now
          → Ahead key call.now (acquire c call.key call.cost call.now state).1
      step key call start state u a le = ground (
        arith,
        due-acquire c call.key key call.cost call.now call.now state u le_refl,
        due_later c start call.now (lookup key state) le,
        eq_iff call.key key,
      )

  -- However the calls of a run are spread, the requests that a new limiter grants a key, at an emission
  -- interval each, take no more than the window, half an interval and the time the run lasts.
  pub granted_within :
      (key : String) (calls : List Call) (start finish : ℕ)
      → InOrder start calls finish
      → 2 * granted key calls [] ≤ 2 * (window c + (finish - start)) + c.emission_interval
  unfolding lookup
  granted_within key calls start finish o = omega (
    arith,
    granted-due key calls start finish [] tt (omega arith) o,
    InOrder-le start calls finish o,
    due-none c start,
  )

-- A new limiter lets one request more than its limit through before a whole emission interval has
-- passed: half an interval after the whole limit was spent, another request is allowed.
pub acquire_overruns :
    (n half now : ℕ) (key : String)
    → (let c : SlidingWindowConfig = record { limit = suc n; emission_interval = half + half } in
        let first = acquire c key (suc n) now [] in
        (first.0.allowed ≡ true) × ((acquire c key 1 (now + half) first.1).0.allowed ≡ true))
unfolding lookup
acquire_overruns n half now key =
    let c : SlidingWindowConfig = record { limit = suc n; emission_interval = half + half } in
    let state' = (acquire c key (suc n) now []).1 in
    let le : now ≤ now + half = omega arith in
    let d = due-acquire c key key (suc n) now (now + half) [] tt le in
    let e =
      due-acquire c key key 1 (now + half) (now + half) state'
        (acquire-Unique c key (suc n) now [] tt) le_refl in
    let a : (acquire c key (suc n) now []).0.allowed ≡ true = ground (arith, d, due-none c now) in
    let t : due (now + half) (lookup key state') ≡ max (asked c key (suc n) now []) (now + half) =
      ground (arith, d, a, eq_iff key key) in
    (a, ground (arith, e, t, due-none c now))
