-- ===== src/Circuit.antt =====
-- The circuit breaker of resilience/circuitbreaker/: the consecutive-count strategy over the
-- process-local store of circuitbreaker/memory.py. The proofs are in the modules below.
pub mod Observe
pub mod Refine
pub mod Invariant
pub mod Isolation
pub mod Trip
pub mod Probe
pub mod Front
mod Tests
use grelmicro.Prelude.{
  ℕ, ◌+◌, ◌-◌, ◌*◌, Bool, true, false, not, ◌&&◌, Option, none, some, String, [], ◌∷◌, ltb, leb,
  ◌==◌, if◌then◌else◌, max, string_eq,
}
use grelmicro.Clock.{day}
use grelmicro.Dict.{Dict, lookup, insert, remove}

pub data CircuitState : Type 0 where
  closed open_circuit half_open forced_open forced_closed : CircuitState

abbrev pub state_ttl : ℕ
state_ttl = day

pub resolve_state_ttl : ℕ → ℕ
resolve_state_ttl reset_timeout = max state_ttl (10 * reset_timeout)

abbrev pub cull_limit : ℕ
cull_limit = 32

-- `_NEVER` is the deadline that no reading of the clock reaches.
pub data Deadline : Type 0 where
  at : ℕ → Deadline
  never : Deadline

-- `now >= expires_at`
abbrev pub reached : ℕ → Deadline → Bool
reached now (at t) = leb t now
reached now never = false

pub record Breaker : Type 0 where
  pub state : CircuitState
  pub opened_at : ℕ
  pub cool_down : ℕ
  pub consecutive_error_count : ℕ
  pub consecutive_success_count : ℕ
  pub half_open_admit : ℕ
  pub expires_at : Deadline

pub record Snapshot : Type 0 where
  pub state : CircuitState
  pub opened_at : ℕ
  pub consecutive_error_count : ℕ
  pub consecutive_success_count : ℕ

abbrev pub snapshot_of : Breaker → Snapshot
snapshot_of b = record {
  state = b.state;
  opened_at = b.opened_at;
  consecutive_error_count = b.consecutive_error_count;
  consecutive_success_count = b.consecutive_success_count;
}

abbrev pub default_snapshot : Snapshot
default_snapshot = record {
  state = closed;
  opened_at = 0;
  consecutive_error_count = 0;
  consecutive_success_count = 0;
}

pub record Config : Type 0 where
  pub error_threshold : ℕ
  pub success_threshold : ℕ
  pub reset_timeout : ℕ
  pub half_open_capacity : ℕ

pub record Strategy : Type 0 where
  pub name : String
  pub config : Config
  pub open config use *
  pub open_ttl : ℕ

-- `bind`
pub bind : String → Config → Strategy
unfolding resolve_state_ttl
bind name config = record {
  name = name;
  config = config;
  open_ttl = resolve_state_ttl config.reset_timeout;
}

abbrev pub States : Type 0
States = Dict String Breaker

-- The loop of `_cull` over `list(self._states.items())`.
pub cull_from : String → ℕ → ℕ → States → States → States
cull_from own now reclaimed [] states = states
cull_from own now reclaimed ((name, b) ∷ items) states =
    let reclaim = cull_from own now (reclaimed + 1) items (remove name states) in
    let skip = cull_from own now reclaimed items states in
    if leb cull_limit reclaimed
    then states
    else if not (name == own) && reached now b.expires_at
    then reclaim
    else skip

abbrev pub cull : String → ℕ → States → States
cull own now states = cull_from own now 0 states states

abbrev pub fresh : ℕ → Breaker
fresh now = record {
  state = closed;
  opened_at = 0;
  cool_down = 0;
  consecutive_error_count = 0;
  consecutive_success_count = 0;
  half_open_admit = 0;
  expires_at = at (now + state_ttl);
}

abbrev pub renew : Strategy → ℕ → States → Breaker × States
renew s now states = (fresh now, cull s.name now (insert s.name (fresh now) states))

-- `_live`: the live entry, made if it is missing or past its deadline.
pub live : Strategy → ℕ → States → Breaker × States
live s now states = elim (lookup s.name states) [
  | none ↦ renew s now states
  | some b ↦ if reached now b.expires_at then renew s now states else (b, states)
]

pub close : Strategy → States → Snapshot × States
close s states = (default_snapshot, remove s.name states)

abbrev pub to_half_open : ℕ → Breaker → Breaker
to_half_open now b = record b {
  state = half_open;
  consecutive_error_count = 0;
  consecutive_success_count = 0;
  half_open_admit = 0;
  opened_at = 0;
  cool_down = 0;
  expires_at = at (now + state_ttl);
}

-- The last test of `_admit_recovering`.
abbrev pub admit_probe : Strategy → ℕ → Breaker → States → Bool × States
admit_probe s now b states =
    if ltb b.half_open_admit s.half_open_capacity
    then (
      true,
      insert s.name
          (record b { half_open_admit = b.half_open_admit + 1; expires_at = at (now + state_ttl) })
          states,
    )
    else (false, insert s.name b states)

-- `state.state == OPEN` in `_admit_recovering`
abbrev pub is_open : CircuitState → Bool
is_open open_circuit = true
is_open _ = false

pub admit_recovering : Strategy → ℕ → Breaker → States → Bool × States
unfolding live
admit_recovering s now b states =
    if reached now b.expires_at
    then (true, (live s now states).1)
    else if is_open b.state
    then (if ltb now (b.opened_at + b.cool_down)
        then (false, states)
        else admit_probe s now (to_half_open now b) states)
    else admit_probe s now b states

abbrev pub admit_state : CircuitState → Strategy → ℕ → Breaker → States → Bool × States
unfolding admit_recovering
admit_state closed s now b states = (true, states)
admit_state forced_closed s now b states = (true, states)
admit_state forced_open s now b states = (false, states)
admit_state _ s now b states = admit_recovering s now b states

pub try_acquire : Strategy → ℕ → States → Bool × States
unfolding admit_recovering
try_acquire s now states = elim (lookup s.name states) [
  | none ↦ (true, states)
  | some b ↦ admit_state b.state s now b states
]

-- `if state.half_open_admit > 0: state.half_open_admit -= 1`, in `HALF_OPEN`
abbrev pub give_back : CircuitState → ℕ → ℕ
give_back half_open n = if ltb 0 n then n - 1 else n
give_back _ n = n

abbrev pub is_half_open : CircuitState → Bool
is_half_open half_open = true
is_half_open _ = false

abbrev pub record_success : Strategy → ℕ → Breaker → States → Snapshot × States
record_success s now b states =
    let b' : Breaker = record b {
      consecutive_success_count = b.consecutive_success_count + 1;
      consecutive_error_count = 0;
      half_open_admit = give_back b.state b.half_open_admit;
      expires_at = at (now + state_ttl);
    } in
    if is_half_open b.state && leb s.success_threshold b'.consecutive_success_count
    then close s states
    else (snapshot_of b', insert s.name b' states)

abbrev pub record_failure : Strategy → ℕ → Breaker → States → Snapshot × States
record_failure s now b states =
    let counted : Breaker = record b {
      consecutive_error_count = b.consecutive_error_count + 1;
      consecutive_success_count = 0;
      half_open_admit = give_back b.state b.half_open_admit;
      expires_at = at (now + state_ttl);
    } in
    let tripped : Breaker = record {
      state = open_circuit;
      opened_at = now;
      cool_down = s.reset_timeout;
      expires_at = at (now + s.open_ttl);
      consecutive_error_count = 0;
      consecutive_success_count = 0;
      half_open_admit = 0;
    } in
    let b' = if leb s.error_threshold counted.consecutive_error_count then tripped else counted in
    (snapshot_of b', insert s.name b' states)

-- `FORCED_OPEN`, `FORCED_CLOSED` and `OPEN` ignore the outcome.
abbrev pub ignores_outcome : CircuitState → Bool
ignores_outcome closed = false
ignores_outcome half_open = false
ignores_outcome _ = true

pub record_outcome : Strategy → ℕ → Bool → States → Snapshot × States
unfolding live close
record_outcome s now success states =
    let (b, states') = live s now states in
    if ignores_outcome b.state
    then (snapshot_of b, states')
    else if success
    then record_success s now b states'
    else record_failure s now b states'

-- The entry that `transition` writes for a state other than `CLOSED`.
abbrev pub forced_entry : Strategy → CircuitState → Option ℕ → ℕ → Breaker
forced_entry s open_circuit none now = record {
  state = open_circuit;
  opened_at = now;
  cool_down = s.reset_timeout;
  expires_at = at (now + s.open_ttl);
  consecutive_error_count = 0;
  consecutive_success_count = 0;
  half_open_admit = 0;
}
forced_entry s open_circuit (some cool) now = record {
  state = open_circuit;
  opened_at = now;
  cool_down = cool;
  expires_at = at (now + resolve_state_ttl cool);
  consecutive_error_count = 0;
  consecutive_success_count = 0;
  half_open_admit = 0;
}
forced_entry s desired cool_down now = record {
  state = desired;
  opened_at = 0;
  cool_down = 0;
  expires_at = elim desired [
    | forced_open ↦ never
    | forced_closed ↦ never
    | _ ↦ at (now + state_ttl)
  ];
  consecutive_error_count = 0;
  consecutive_success_count = 0;
  half_open_admit = 0;
}

pub transition : Strategy → CircuitState → Option ℕ → ℕ → States → States
unfolding live close
transition s closed cool_down now states = (close s states).1
transition s desired cool_down now states =
    insert s.name (forced_entry s desired cool_down now) (live s now states).1

pub get_snapshot : Strategy → ℕ → States → Snapshot
get_snapshot s now states = elim (lookup s.name states) [
  | none ↦ default_snapshot
  | some b ↦ if reached now b.expires_at then default_snapshot else snapshot_of b
]
