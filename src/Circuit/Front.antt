-- ===== src/Circuit/Front.antt =====
-- `CircuitBreaker` of circuitbreaker/__init__.py around its strategy: what one process keeps for
-- itself, and the context manager that admits a call and records how it ended. `__aenter__` and
-- `_async_admit`, and `__aexit__` and `_async_handle_exit`, differ only in the thread that they run on.
pub mod Calls
use grelmicro.Prelude.{ℕ, ◌+◌, ◌-◌, true, false, Option, none, some, String, ltb, if◌then◌else◌}
use grelmicro.Circuit.{
  CircuitState, closed, open_circuit, half_open, forced_open, Snapshot, Config, Strategy, bind,
  States, try_acquire, record_outcome, transition, get_snapshot,
}

pub data TransitionCause : Type 0 where
  error_threshold success_threshold reset_timeout manual restart : TransitionCause

pub derive_cause : CircuitState → CircuitState → TransitionCause
derive_cause previous open_circuit = error_threshold
derive_cause open_circuit half_open = reset_timeout
derive_cause previous closed = success_threshold
derive_cause previous new = manual

-- How the body of a call ended: `ignored` is an error of `ignore_exceptions`, `cancelled` a
-- `BaseException` that is no `Exception`, as `CancelledError` is.
pub data Ending : Type 0 where
  returned ignored cancelled : Ending
  raised : String → Ending

pub record Breaker : Type 0 where
  pub name : String
  pub config : Config
  pub strategy : Option Strategy
  pub active_call_count : ℕ
  pub touched : ℕ
  pub cached_state : CircuitState
  pub consecutive_error_count : ℕ
  pub consecutive_success_count : ℕ
  pub total_error_count : ℕ
  pub total_success_count : ℕ
  pub last_error : Option (String × ℕ)

abbrev pub init : String → Config → Breaker
init name config = record {
  name = name;
  config = config;
  strategy = none;
  active_call_count = 0;
  touched = 0;
  cached_state = closed;
  consecutive_error_count = 0;
  consecutive_success_count = 0;
  total_error_count = 0;
  total_success_count = 0;
  last_error = none;
}

-- `state.strategy or self._resolve_strategy(state)`
pub resolve_strategy : Breaker → Strategy × Breaker
resolve_strategy cb = elim cb.strategy [
  | some s ↦ (s, cb)
  | none ↦ let s = bind cb.name cb.config in (s, record cb { strategy = some s })
]

pub apply_snapshot : Snapshot → Breaker → Breaker
apply_snapshot snapshot cb = record cb {
  cached_state = snapshot.state;
  consecutive_error_count = snapshot.consecutive_error_count;
  consecutive_success_count = snapshot.consecutive_success_count;
}

pub data Admission : Type 0 where
  admitted : Admission
  circuit_breaker_error : Option (String × ℕ) → Admission

-- `__aenter__`. The two readings of the clock after the first are `_touched` and the snapshot's.
unfoldable pub enter : ℕ → ℕ → Breaker → States → Admission × Breaker × States
unfolding resolve_strategy apply_snapshot
enter now later cb states =
    let (s, bound) = resolve_strategy cb in
    let (ok, states') = try_acquire s now states in
    if ok
    then (
      admitted,
      record bound { active_call_count = bound.active_call_count + 1; touched = later },
      states',
    )
    else (
      circuit_breaker_error bound.last_error,
      apply_snapshot (get_snapshot s later states') bound,
      states',
    )

pub release_call : ℕ → Breaker → Breaker
release_call now cb = record cb {
  active_call_count = if ltb 0 cb.active_call_count then cb.active_call_count - 1 else 0;
  touched = now;
}

abbrev finish : Ending → Strategy → ℕ → ℕ → Breaker → States → Breaker × States
unfolding apply_snapshot
finish cancelled s now wall cb states = (cb, states)
finish (raised e) s now wall cb states =
    let (snapshot, states') = record_outcome s now false states in
    (
      apply_snapshot snapshot
          (record cb { total_error_count = cb.total_error_count + 1; last_error = some (e, wall) }),
      states',
    )
finish _ s now wall cb states =
    let (snapshot, states') = record_outcome s now true states in
    (
      apply_snapshot snapshot (record cb { total_success_count = cb.total_success_count + 1 }),
      states',
    )

-- `__aexit__`: the readings of `_release_call`, of `record_outcome`, and of the wall clock.
unfoldable pub exit : Ending → ℕ → ℕ → ℕ → Breaker → States → Breaker × States
unfolding resolve_strategy apply_snapshot release_call
exit ending released now wall cb states =
    let (s, bound) = resolve_strategy (release_call released cb) in
    finish ending s now wall bound states

-- `_transition`
pub force_transition : CircuitState → Option ℕ → ℕ → Breaker → States → Breaker × States
unfolding resolve_strategy
force_transition desired cool_down now cb states =
    let (s, bound) = resolve_strategy cb in
    (
      record bound {
        cached_state = desired;
        consecutive_error_count = 0;
        consecutive_success_count = 0;
      },
      transition s desired cool_down now states,
    )

pub isolate : ℕ → Breaker → States → Breaker × States
unfolding force_transition
isolate now cb states = force_transition forced_open none now cb states

pub reset : ℕ → Breaker → States → Breaker × States
unfolding force_transition
reset now cb states =
    force_transition closed none now
      (record cb { total_error_count = 0; total_success_count = 0; last_error = none }) states

-- `_apply_reconfigure`: the next call binds the new configuration.
pub reconfigure : Config → Breaker → Breaker
reconfigure config cb = record cb { config = config; strategy = none }
