-- ===== src/Task/Calendar.antt =====
-- Python's `datetime`, as far as task/_cron.py computes with it: a wall-clock time in whole minutes.
-- Years below 1 and above 9999, where `datetime` raises OverflowError, are not excluded.
pub mod Order
pub mod Back
use grelmicro.Prelude.{
  ℕ, zero, suc, ◌+◌, ◌-◌, ◌*◌, ◌/◌, ◌%◌, ◌≤◌, ◌<◌, Bool, true, false, not, ◌&&◌, ◌||◌, leb, ltb,
  nat_beq, if◌then◌else◌,
}

pub record Datetime : Type 0 where
  pub year : ℕ
  pub month : ℕ
  pub day : ℕ
  pub hour : ℕ
  pub minute : ℕ

unfoldable pub is_leap : ℕ → Bool
is_leap y = nat_beq (y % 4) 0 && (not (nat_beq (y % 100) 0) || nat_beq (y % 400) 0)

unfoldable pub days_in_month : ℕ → ℕ → ℕ
unfolding is_leap
days_in_month y m =
    if nat_beq m 2
    then (if is_leap y then 29 else 28)
    else if nat_beq m 4 || nat_beq m 6 || nat_beq m 9 || nat_beq m 11
    then 30
    else 31

-- The days of a year before a month.
unfoldable pub days_before_month : ℕ → ℕ → ℕ
days_before_month y zero = 0
days_before_month y (suc m) = if nat_beq m 0 then 0 else days_before_month y m + days_in_month y m

-- `weekday()`: Monday is 0.
unfoldable pub weekday : Datetime → ℕ
unfolding days_before_month
weekday t =
    let y = t.year - 1 in
    (y * 365 + y / 4 - y / 100 + y / 400 + days_before_month t.year t.month + t.day + 6) % 7

-- `t + timedelta(days=1)`
unfoldable pub plus_day : Datetime → Datetime
plus_day t =
    if ltb t.day (days_in_month t.year t.month)
    then record t { day = t.day + 1 }
    else if nat_beq t.month 12
    then record t { year = t.year + 1; month = 1; day = 1 }
    else record t { month = t.month + 1; day = 1 }

-- `t + timedelta(hours=1)`
unfoldable pub plus_hour : Datetime → Datetime
unfolding plus_day
plus_hour t =
    if ltb t.hour 23 then record t { hour = t.hour + 1 } else plus_day (record t { hour = 0 })

-- `t + timedelta(minutes=1)`
unfoldable pub plus_minute : Datetime → Datetime
unfolding plus_hour
plus_minute t =
    if ltb t.minute 59
    then record t { minute = t.minute + 1 }
    else plus_hour (record t { minute = 0 })

-- `t - timedelta(days=1)`
unfoldable pub minus_day : Datetime → Datetime
minus_day t =
    if ltb 1 t.day
    then record t { day = t.day - 1 }
    else if nat_beq t.month 1
    then record t { year = t.year - 1; month = 12; day = 31 }
    else record t { month = t.month - 1; day = days_in_month t.year (t.month - 1) }

-- `t - timedelta(hours=1)`
unfoldable pub minus_hour : Datetime → Datetime
unfolding minus_day
minus_hour t =
    if ltb 0 t.hour then record t { hour = t.hour - 1 } else minus_day (record t { hour = 23 })

-- `t - timedelta(minutes=1)`
unfoldable pub minus_minute : Datetime → Datetime
unfolding minus_hour
minus_minute t =
    if ltb 0 t.minute
    then record t { minute = t.minute - 1 }
    else minus_hour (record t { minute = 59 })

-- `_advance_month`
unfoldable pub advance_month : Datetime → Datetime
advance_month t =
    if nat_beq t.month 12
    then record { year = t.year + 1; month = 1; day = 1; hour = 0; minute = 0 }
    else record t { month = t.month + 1; day = 1; hour = 0; minute = 0 }

-- `_retreat_month`
unfoldable pub retreat_month : Datetime → Datetime
unfolding minus_minute
retreat_month t = minus_minute (record t { day = 1; hour = 0; minute = 0 })

-- `t + timedelta(days=n)` and `t - timedelta(days=n)`
unfoldable pub plus_days : ℕ → Datetime → Datetime
plus_days zero t = t
plus_days (suc n) t = plus_days n (plus_day t)

unfoldable pub minus_days : ℕ → Datetime → Datetime
minus_days zero t = t
minus_days (suc n) t = minus_days n (minus_day t)

-- Datetimes compare by their fields, from the year down.
abbrev pub stamp : Datetime → ℕ
stamp t = (((t.year * 13 + t.month) * 32 + t.day) * 24 + t.hour) * 60 + t.minute
