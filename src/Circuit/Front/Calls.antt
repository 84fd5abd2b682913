-- ===== src/Circuit/Front/Calls.antt =====
-- Calls through `CircuitBreaker`: its counters, its cache, and a probe that is cancelled.
use grelmicro.Prelude.{
  ℕ, ◌+◌, ◌-◌, ◌<◌, ◌≤◌, ◌≡◌, ◌≢◌, true, false, some, List, arith, min, length, string_eq,
}
use grelmicro.Dict.{lookup}
use grelmicro.Circuit.{Strategy, bind, States, state_ttl, get_snapshot, resolve_state_ttl}
use grelmicro.Circuit.Observe.{IsHeld}
use grelmicro.Circuit.Trip.{opened}
use grelmicro.Circuit.Refine.{record_outcome-eq-get_snapshot}
use grelmicro.Circuit.Probe.{probe_first, admissions, admissions-eq-min, IsBetween}
use grelmicro.Circuit.Front.{Breaker, Ending, cancelled, admitted, enter, exit}

abbrev pub strategy_of : Breaker → Strategy
strategy_of cb = bind cb.name cb.config

-- The cached strategy is the one that the configuration binds.
abbrev pub IsBound : Breaker → Type 0
IsBound cb = cb.strategy ≡ some (strategy_of cb)

module _ (cb : Breaker) (states : States) (bound : IsBound cb) where
  -- A call that is admitted and then ends, in whatever way, leaves the number of calls in flight
  -- as it was.
  pub active-exit-enter :
      (now later released recorded wall : ℕ) (ending : Ending)
      → (enter now later cb states).0 ≡ admitted
      → (exit ending released recorded wall
          (enter now later cb states).1
          (enter now later cb states).2).0.active_call_count
        ≡ cb.active_call_count
  unfolding enter exit
  active-exit-enter now later released recorded wall ending h = ground arith

  -- Unless the call was cancelled, what the breaker caches when a call ends is what the store
  -- holds then.
  pub cached-eq-get_snapshot :
      (released now wall : ℕ) (ending : Ending)
      → IsHeld (lookup cb.name states)
      → ending ≢ cancelled
      → (let after = exit ending released now wall cb states in
          let snapshot = get_snapshot (strategy_of cb) now after.1 in
          (after.0.cached_state ≡ snapshot.state)
          × (after.0.consecutive_error_count ≡ snapshot.consecutive_error_count)
          × (after.0.consecutive_success_count ≡ snapshot.consecutive_success_count))
  unfolding exit
  cached-eq-get_snapshot released now wall ending held h = ground (
    arith,
    record_outcome-eq-get_snapshot cb.name cb.config now true states held,
    record_outcome-eq-get_snapshot cb.name cb.config now false states held,
  )

  -- A probe that is cancelled keeps its slot: after the cool-down of a circuit that tripped at
  -- `t`, one call is admitted and cancelled, and of the calls of the day that follows at most
  -- `half_open_capacity - 1` are admitted, although no other call is in flight. With the default
  -- capacity of 1 none is.
  pub admissions-cancelled :
      (t first later released recorded wall : ℕ) (times : List ℕ)
      → lookup cb.name states ≡ some (opened cb.config t)
      → t + cb.config.reset_timeout ≤ first
      → first < t + resolve_state_ttl cb.config.reset_timeout
      → 0 < cb.config.half_open_capacity
      → IsBetween first (first + state_ttl) times
      → (let entered = enter first later cb states in
          let left = exit cancelled released recorded wall entered.1 entered.2 in
          (entered.0 ≡ admitted)
          × (left.0.active_call_count ≡ cb.active_call_count)
          × (admissions (strategy_of cb) times left.1
              ≡ min (length times) (cb.config.half_open_capacity - 1)))
  unfolding enter exit admissions
  admissions-cancelled t first later released recorded wall times e late soon room between =
      ground (
        arith,
        probe_first cb.name cb.config t first states e late soon room,
        admissions-eq-min cb.name cb.config t first times states e late soon room between,
      )
