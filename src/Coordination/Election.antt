-- ===== src/Coordination/Election.antt =====
-- `LeaderElection` of coordination/leaderelection.py: what a worker believes, by what the backend
-- answers. `monotonic()` and the clock of the backend are taken to run alike; readings are in
-- microseconds.
pub mod System
pub mod Covering
pub mod Believing
pub mod Exclusive
pub mod Overlap
mod Tests
use grelmicro.Prelude.{
  ℕ, ◌+◌, ◌-◌, ◌≤◌, ◌<◌, max, Bool, true, false, not, ◌&&◌, ◌||◌, Option, none, some, String, List,
  leb, ltb, ◌==◌, nat_beq, if◌then◌else◌, string_eq,
}
use grelmicro.Coordination.Leader.{LeaderRecord}

pub record LeaderElectionConfig : Type 0 where
  pub lease_duration : ℕ
  pub renew_deadline : ℕ
  pub retry_interval : ℕ
  pub backend_timeout : ℕ
  pub error_interval : ℕ

-- `LeaderElectionConfig._validate`, for the durations.
abbrev pub is_valid : LeaderElectionConfig → Bool
is_valid config =
    not (leb config.lease_duration config.renew_deadline)
    && not (leb config.renew_deadline config.retry_interval)
    && not (leb config.renew_deadline config.backend_timeout)

pub record LeaderElection : Type 0 where
  pub is_leading : Bool
  pub state_updated_at : ℕ
  pub last_confirmed_at : Option ℕ
  pub error_logged_at : Option ℕ
  pub last_record : Option LeaderRecord

abbrev pub init : ℕ → LeaderElection
init now = record {
  is_leading = false;
  state_updated_at = now;
  last_confirmed_at = none;
  error_logged_at = none;
  last_record = none;
}

module _ (config : LeaderElectionConfig) where
  -- `_is_renew_deadline_reached`
  unfoldable pub is_renew_deadline_reached : ℕ → LeaderElection → Bool
  is_renew_deadline_reached now e = leb config.renew_deadline (now - e.state_updated_at)

  unfoldable pub is_leader : ℕ → LeaderElection → Bool
  unfolding is_renew_deadline_reached
  is_leader now e = if not e.is_leading then false else not (is_renew_deadline_reached now e)

  abbrev pub last_confirmation_age : ℕ → LeaderElection → Option ℕ
  last_confirmation_age now e = elim e.last_confirmed_at [ none ↦ none | some at ↦ some (now - at) ]

  unfoldable pub is_leader_confirmed_within : ℕ → ℕ → LeaderElection → Bool
  is_leader_confirmed_within max_age now e = elim e.last_confirmed_at [
    | none ↦ false
    | some at ↦ if not e.is_leading then false else leb (now - at) max_age
  ]

  -- `_update_state`; it wakes the waiters where the second component is true.
  unfoldable pub update_state : Bool → ℕ → LeaderElection → LeaderElection × Bool
  update_state leading now e = (
    record e {
      is_leading = leading;
      state_updated_at = now;
      last_confirmed_at = if leading then some now else none;
    },
    if leading then not e.is_leading else e.is_leading,
  )

  -- `_try_acquire_or_renew`, where the backend answers.
  unfoldable pub answered : String → LeaderRecord → ℕ → LeaderElection → LeaderElection
  unfolding update_state
  answered worker r now e =
      (update_state (r.holder == worker) now (record e { last_record = some r })).0

  abbrev pub logs_error : ℕ → Option ℕ → Bool
  logs_error now none = true
  logs_error now (some at) = nat_beq at 0 || ltb config.error_interval (now - at)

  -- `_check_error_interval`: whether the error is logged.
  unfoldable pub check_error_interval : ℕ → LeaderElection → Bool × LeaderElection
  check_error_interval now e =
      (logs_error now e.error_logged_at, record e { error_logged_at = some now })

  -- `_try_acquire_or_renew`, where the backend fails or its timeout has passed.
  unfoldable pub failed : ℕ → LeaderElection → LeaderElection
  unfolding update_state check_error_interval is_renew_deadline_reached
  failed now e =
      let e' = (check_error_interval now e).1 in
      if is_renew_deadline_reached now e' then (update_state false now e').0 else e'

  -- `_seconds_before_expiration_deadline`
  abbrev pub seconds_before_expiration_deadline : ℕ → LeaderElection → ℕ
  seconds_before_expiration_deadline now e =
      max (e.state_updated_at + config.lease_duration - now) 0

-- `_LeaderGuard.__aenter__`: none is WouldBlockError.
abbrev pub guard : LeaderElectionConfig → ℕ → LeaderElection → Option LeaderElection
unfolding is_leader
guard config now e = if not (is_leader config now e) then none else some e
