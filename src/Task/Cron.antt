-- ===== src/Task/Cron.antt =====
-- The ticks of `CronTask` of task/_cron.py, over the process-local schedule store. An instant is a
-- whole number of microseconds; the due fire that the cron expression gives is an argument.
--
-- A tick reads the last fire of its schedule and then claims the fire that is due, and between the
-- two any other worker may run: a worker's reading and its claim are two events.
pub mod Once
pub mod Tick
use grelmicro.Prelude.{
  ℕ, ◌-◌, Bool, true, false, not, Option, none, some, String, List, [], ◌∷◌, leb, ltb,
  if◌then◌else◌, string_eq,
}
use grelmicro.Dict.{Dict, lookup, insert, remove}
use grelmicro.Coordination.Schedule.{Fires, claim, last_fired}

pub data FireOutcome : Type 0 where
  success error skipped missed coordination_error : FireOutcome

-- What becomes of `_run`: the body ran and returned, or raised; the `sync` primitive did not admit
-- it (WouldBlockError), or failed.
pub data Body : Type 0 where
  returned raised not_admitted failed : Body

-- The outcome that `last_fire` is left with.
abbrev pub run_outcome : Body → FireOutcome
run_outcome returned = success
run_outcome raised = error
run_outcome not_admitted = missed
run_outcome failed = coordination_error

-- What a worker claims a fire for.
pub data Purpose : Type 0 where
  baseline late_fire run_fire : Purpose

-- What a reading of the last fire leads to: the end of the tick, with what it reports, or a claim.
pub data Next : Type 0 where
  finish : Option FireOutcome → Next
  ask : Purpose → Next

abbrev pub is_late : Option ℕ → ℕ → ℕ → Bool
is_late none now due = false
is_late (some grace) now due = ltb grace (now - due)

-- The part of `_tick` before the claim.
abbrev pub decide : Option ℕ → Bool → ℕ → ℕ → Option ℕ → Next
decide grace catchup now due none = ask baseline
decide grace catchup now due (some last) =
    if leb due last
    then finish (if catchup then none else some skipped)
    else if is_late grace now due
    then ask late_fire
    else ask run_fire

-- What a worker reports once it has claimed: `_drop_late_fire`, `_claim_and_run`, and the handlers
-- of `_tick_guarded`.
abbrev pub settle : Purpose → Bool → Body → Option FireOutcome
settle baseline won body = none
settle late_fire won body = some (if won then missed else skipped)
settle run_fire won body = some (if won then run_outcome body else skipped)

-- A worker that has read the last fire and is about to claim.
pub record Waiting : Type 0 where
  pub name : String
  pub due : ℕ
  pub purpose : Purpose

pub record World : Type 0 where
  pub fires : Fires
  pub workers : Dict String Waiting

-- What a worker reports of a fire of a schedule.
pub record Report : Type 0 where
  pub name : String
  pub due : ℕ
  pub outcome : Option FireOutcome

pub data Event : Type 0 where
  -- `worker` begins a tick of the schedule `name`.
  read : (worker name : String) → (grace : Option ℕ) → (catchup : Bool) → (now due : ℕ) → Event
  -- `worker` claims, and runs the body if it won.
  claim_fire : (worker : String) → Body → Event
  -- `worker` dies before it claims.
  die : (worker : String) → Event

abbrev pub begin : String → String → ℕ → Next → World → Option Report × World
begin worker name due (finish outcome) w =
    (some (record { name = name; due = due; outcome = outcome }), w)
begin worker name due (ask purpose) w = (
  none,
  record w {
    workers = insert worker (record { name = name; due = due; purpose = purpose }) w.workers;
  },
)

abbrev pub conclude : String → Body → Option Waiting → World → Option Report × World
conclude worker body none w = (none, w)
conclude worker body (some waiting) w =
    let (won, fires') = claim waiting.name waiting.due w.fires in
    (
      some (record {
        name = waiting.name;
        due = waiting.due;
        outcome = settle waiting.purpose won body;
      }),
      record { fires = fires'; workers = remove worker w.workers },
    )

unfoldable pub advance : Event → World → Option Report × World
advance (read worker name grace catchup now due) w =
    begin worker name due (decide grace catchup now due (last_fired name w.fires)) w
advance (claim_fire worker body) w = conclude worker body (lookup worker w.workers) w
advance (die worker) w = (none, record w { workers = remove worker w.workers })

abbrev pub reported : Option Report → List Report → List Report
reported none reports = reports
reported (some report) reports = report ∷ reports

unfoldable pub run : List Event → World → List Report × World
run [] w = ([], w)
run (event ∷ events) w =
    let (report, w') = advance event w in
    let (reports, w'') = run events w' in (reported report reports, w'')

-- A tick that no other worker's event comes into.
unfoldable pub tick : String → Option ℕ → Bool → ℕ → ℕ → Body → Fires → Option FireOutcome × Fires
tick name grace catchup now due body fires =
    elim (decide grace catchup now due (last_fired name fires)) [
      | finish outcome ↦ (outcome, fires)
      | ask purpose ↦ let (won, fires') = claim name due fires in (settle purpose won body, fires')
    ]

-- A tick without a schedule store.
unfoldable pub tick_local : Bool → Body → Option FireOutcome
tick_local catchup body = if catchup then none else some (run_outcome body)
