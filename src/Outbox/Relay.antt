-- ===== src/Outbox/Relay.antt =====
-- `Relay` of outbox/_relay.py, over `MemoryOutboxAdapter` and the registry. Any number of relays share
-- the store. Durations are microseconds; the jitter is a number out of `unit`.
pub mod Settling
pub mod Attempts
pub mod Pool
pub mod Distinct
pub mod Failing
pub mod Slots
mod Tests
use grelmicro.Prelude.{
  ℕ, zero, suc, ◌+◌, ◌-◌, ◌*◌, ◌/◌, ◌^◌, ◌%◌, min, Bool, true, false, not, ◌&&◌, ◌||◌, Option, none,
  some, String, List, [], ◌∷◌, ◌++◌, map, ltb, leb, if◌then◌else◌, string_eq, ◌==◌, length, keep,
}
use grelmicro.Dict.{Dict, lookup}
use grelmicro.Backoff.{uniform}
use grelmicro.Outbox.{OutboxRecord, Outbox, claim, complete, reschedule, purge}
use grelmicro.Outbox.Registry.{
  HandlerEntry, Message, Model, Built, Registry, built, already_registered, not_found,
  invalid_payload, build_message, get, topics,
}

-- `keep_delivered`: False, True, or for how long.
pub data Keep : Type 0 where
  discards keeps : Keep
  keeps_for : ℕ → Keep

pub record OutboxConfig : Type 0 where
  pub batch_size : ℕ
  pub concurrency : ℕ
  pub lease_duration : ℕ
  pub max_attempts : ℕ
  pub dead_letter : Bool
  pub retry_base : ℕ
  pub retry_max : ℕ
  pub retry_jitter : ℕ
  pub keep_delivered : Keep

abbrev pub unit : ℕ
unit = 1000

abbrev pub max_backoff_exponent : ℕ
max_backoff_exponent = 63

abbrev pub is_kept : Keep → Bool
is_kept discards = false
is_kept keeps = true
is_kept (keeps_for retention) = true

-- How a handler ends: it returns, it is cancelled, it raises `Cancel` or `Retry`, a ValidationError of
-- pydantic, which is caught as one of the payload is, or another Exception.
pub data Handled : Type 0 where
  returned was_cancelled : Handled
  cancels : String → Handled
  retries : Option ℕ → Handled
  invalidates raises : String → Handled

-- What a delivery does to its message: nothing, or one of the operations of the backend.
pub data Settlement : Type 0 where
  left completed : Settlement
  rescheduled : ℕ → String → Settlement
  dead_lettered : String → Settlement

module _ (config : OutboxConfig) where
  -- `_backoff`, by the number that was drawn.
  unfoldable pub backoff : ℕ → ℕ → ℕ
  backoff attempts drawn =
      let exponent = min (attempts - 1) max_backoff_exponent in
      let raw = min config.retry_max (config.retry_base * 2 ^ exponent) in
      let floor = raw * (unit - config.retry_jitter) / unit in uniform floor raw drawn

  -- `_settle_retry`; the text of an error stands for the message with its prefix.
  unfoldable pub settle_retry : OutboxRecord → String → Option ℕ → ℕ → Settlement
  settle_retry m error delay drawn =
      if config.dead_letter && leb config.max_attempts m.attempts
      then dead_lettered error
      else rescheduled (elim delay [ none ↦ backoff m.attempts drawn | some d ↦ d ]) error

  -- The message is past its attempts, so that the handler is not run.
  abbrev pub is_poison : OutboxRecord → Bool
  is_poison m = config.dead_letter && ltb config.max_attempts m.attempts

  abbrev pub settlement : OutboxRecord → Handled → ℕ → Settlement
  settlement m returned drawn = completed
  settlement m was_cancelled drawn = left
  settlement m (cancels reason) drawn = dead_lettered reason
  settlement m (retries delay) drawn = settle_retry m "retry requested" delay drawn
  settlement m (invalidates error) drawn = dead_lettered error
  settlement m (raises error) drawn = settle_retry m error none drawn

module _ (config : OutboxConfig) {A : Type 0} where
  -- The errors of the registry, by the `except` clauses of `_deliver`.
  abbrev pub caught : OutboxRecord → ℕ → Built A → (A → Settlement) → Settlement
  caught m drawn (built a) next = next a
  caught m drawn (invalid_payload error) next = dead_lettered error
  caught m drawn not_found next = settle_retry config m "HandlerNotFoundError" none drawn
  caught m drawn already_registered next =
      settle_retry config m "HandlerAlreadyRegisteredError" none drawn

module _ (config : OutboxConfig) {F D : Type 0} where
  -- `_deliver`, by what a handler ends in.
  unfoldable pub deliver :
      (Model → String → Built D)
      → Registry F
      → (F → Message D → Handled)
      → OutboxRecord
      → ℕ
      → Settlement
  unfolding build_message settle_retry get
  deliver decode_payload handlers run m drawn =
      if is_poison config m
      then dead_lettered "exceeded max_attempts"
      else caught config m drawn (build_message decode_payload m handlers) (λ message.
        caught config m drawn (get m.topic handlers)
          (λ entry. settlement config m (run entry.fn message) drawn))

-- `_settle`, where the backend does not fail.
unfoldable pub settle : OutboxConfig → OutboxRecord → Settlement → ℕ → Outbox → Outbox
settle config m left now box = box
settle config m completed now box = complete m.id m.attempts (is_kept config.keep_delivered) now box
settle config m (rescheduled delay error) now box =
    reschedule m.id m.attempts delay error false now box
settle config m (dead_lettered error) now box = reschedule m.id m.attempts 0 error true now box
