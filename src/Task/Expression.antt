-- ===== src/Task/Expression.antt =====
-- `CronExpression` of task/_cron.py, once its fields are parsed. A search starts from a datetime in
-- whole minutes: the source drops the seconds.
pub mod Field
pub mod Next
pub mod Previous
mod Tests
use grelmicro.Prelude.{
  ℕ, zero, suc, ◌+◌, ◌-◌, ◌*◌, ◌%◌, Bool, true, false, not, ◌&&◌, ◌||◌, Option, none, some, List,
  leb, nat_eq, contains, if◌then◌else◌,
}
use grelmicro.Task.Calendar.{
  Datetime, weekday, plus_day, plus_hour, plus_minute, minus_day, minus_hour, minus_minute,
  plus_days, minus_days, advance_month, retreat_month, stamp,
}

pub record CronExpression : Type 0 where
  pub minutes : List ℕ
  pub hours : List ℕ
  pub days : List ℕ
  pub months : List ℕ
  pub weekdays : List ℕ
  pub dom_restricted : Bool
  pub dow_restricted : Bool

-- _MAX_SEARCH_YEARS * 366
abbrev pub search_days : ℕ
search_days = 5 * 366

module _ (e : CronExpression) where
  unfoldable pub day_matches : Datetime → Bool
  unfolding weekday
  day_matches t =
      let dow_match = contains e.weekdays ((weekday t + 1) % 7) in
      let dom_match = contains e.days t.day in
      if e.dom_restricted && e.dow_restricted
      then dom_match || dow_match
      else if e.dom_restricted
      then dom_match
      else if e.dow_restricted
      then dow_match
      else true

  -- The body of the loop of `next_after`: the next candidate, or none where this one is returned.
  unfoldable pub advance : Datetime → Option Datetime
  unfolding day_matches plus_minute
  advance t =
      if not (contains e.months t.month)
      then some (advance_month t)
      else if not (day_matches t)
      then some (plus_day (record t { hour = 0; minute = 0 }))
      else if not (contains e.hours t.hour)
      then some (plus_hour (record t { minute = 0 }))
      else if not (contains e.minutes t.minute)
      then some (plus_minute t)
      else none

  -- The body of the loop of `previous_or_equal`.
  unfoldable pub retreat : Datetime → Option Datetime
  unfolding day_matches minus_minute
  retreat t =
      if not (contains e.months t.month)
      then some (retreat_month t)
      else if not (day_matches t)
      then some (minus_day (record t { hour = 23; minute = 59 }))
      else if not (contains e.hours t.hour)
      then some (minus_hour (record t { minute = 59 }))
      else if not (contains e.minutes t.minute)
      then some (minus_minute t)
      else none

-- What a search comes to: a match; none before its limit, where `next_after` raises CronError and
-- `previous_or_equal` returns None; or the end of the model's fuel.
pub data Search : Type 0 where
  found : Datetime → Search
  no_match out_of_fuel : Search

module _ (e : CronExpression) where
  unfoldable pub search_next : Datetime → ℕ → Datetime → Search
  unfolding advance
  search_next limit zero t = out_of_fuel
  search_next limit (suc fuel) t = elim (leb (stamp t) (stamp limit)) [
    | false ↦ no_match
    | true ↦ elim (advance e t) [ none ↦ found t | some t' ↦ search_next limit fuel t' ]
  ]

  -- Each round moves to a later candidate, so the minutes up to the limit are enough rounds.
  unfoldable pub next_after : Datetime → Search
  unfolding search_next
  next_after dt =
      let t = plus_minute dt in
      let limit = plus_days search_days t in search_next limit (stamp limit + 2 - stamp t) t

  unfoldable pub search_previous : Datetime → ℕ → Datetime → Search
  unfolding retreat
  search_previous limit zero t = out_of_fuel
  search_previous limit (suc fuel) t = elim (leb (stamp limit) (stamp t)) [
    | false ↦ no_match
    | true ↦ elim (retreat e t) [ none ↦ found t | some t' ↦ search_previous limit fuel t' ]
  ]

  unfoldable pub previous_or_equal : Datetime → Search
  unfolding search_previous
  previous_or_equal dt =
      let limit = minus_days search_days dt in search_previous limit (stamp dt + 2 - stamp limit) dt
