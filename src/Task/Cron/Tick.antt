-- ===== src/Task/Cron/Tick.antt =====
-- What one tick of task/_cron.py does when no other worker comes into it.
use grelmicro.Prelude.{
  ℕ, ◌≤◌, ◌≡◌, max, Bool, Option, none, some, String, leb, arith, if◌then◌else◌, string_eq,
  Option-cases, inl, inr,
}
use grelmicro.Dict.{lookup, lookup-insert_self}
use grelmicro.Coordination.Schedule.{Fires, claim, last_fired}
use grelmicro.Task.Cron.{FireOutcome, skipped, missed, Body, is_late, run_outcome, tick}

-- What a tick reports, by the last fire of its schedule.
abbrev pub outcome_after : Option ℕ → Bool → ℕ → ℕ → Body → Option ℕ → Option FireOutcome
outcome_after grace catchup now due body none = none
outcome_after grace catchup now due body (some last) =
    if leb due last
    then (if catchup then none else some skipped)
    else if is_late grace now due
    then some missed
    else some (run_outcome body)

abbrev pub latest : Option ℕ → ℕ → ℕ
latest none due = due
latest (some last) due = max last due

-- A tick runs the body exactly when the schedule has a last fire, the due one is later, and it is
-- not later than its grace allows. The first tick of a schedule only sets the baseline, and a fire
-- too late is reported missed. After every tick the last fire is the due one or a later.
pub tick-outcome :
    (name : String) (grace : Option ℕ) (catchup : Bool) (now due : ℕ) (body : Body) (fires : Fires)
    → (let (outcome, fires') = tick name grace catchup now due body fires in
        (outcome ≡ outcome_after grace catchup now due body (last_fired name fires))
        × (last_fired name fires' ≡ some (latest (last_fired name fires) due)))
unfolding tick claim last_fired
tick-outcome name grace catchup now due body fires = elim (Option-cases (lookup name fires)) [
  | inl e ↦ rw e (ground (arith, e, lookup-insert_self name due fires))
  | inr (last, e) ↦ rw e (ground (arith, e, lookup-insert_self name due fires))
]

-- A fire that a tick has handled is not handled by another: whatever the outcome, a second tick for
-- the same fire, or for an earlier one, runs nothing and changes nothing.
pub tick_again :
    (name : String) (grace grace' : Option ℕ) (catchup catchup' : Bool) (now now' due due' : ℕ)
    (body body' : Body) (fires : Fires)
    → due' ≤ due
    → tick name grace' catchup' now' due' body' (tick name grace catchup now due body fires).1
      ≡ ((if catchup' then none else some skipped), (tick name grace catchup now due body fires).1)
unfolding tick last_fired
tick_again name grace grace' catchup catchup' now now' due due' body body' fires le =
    ground (arith, tick-outcome name grace catchup now due body fires)
