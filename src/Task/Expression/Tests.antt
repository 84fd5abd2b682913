-- ===== src/Task/Expression/Tests.antt =====
-- Runs of the cron parser and of its searches, and their theorems at concrete inputs.
use grelmicro.Prelude.{ℕ, ◌≡◌, refl, true, false, some, List, [], ◌∷◌, arith, contains, nat_eq}
use grelmicro.Task.Calendar.{
  Datetime, plus_minute, minus_minute, minus_days, advance_month, days_in_month,
}
use grelmicro.Task.Calendar.Back.{year-minus_days}
use grelmicro.Task.Calendar.Order.{IsValid}
use grelmicro.Task.Expression.{
  CronExpression, found, no_match, next_after, search_next, search_previous, previous_or_equal,
  search_days,
}
use grelmicro.Task.Expression.Next.{IsNext, next_after-IsNext}
use grelmicro.Task.Expression.Previous.{IsPrevious, previous_or_equal-IsPrevious}
use grelmicro.Task.Expression.Field.{parse, parse_field, span}
use grelmicro.Text.{Text}
use grelmicro.Task.Expression.Field.RoundTrip.{
  Part, star_step, value, range, print_field, some_selects, parse_field_round_trip,
}

-- 30 9 * * 1-5, the text and what it is parsed to.
abbrev expr : Text
expr = 51 ∷ 48 ∷ 32 ∷ 57 ∷ 32 ∷ 42 ∷ 32 ∷ 42 ∷ 32 ∷ 49 ∷ 45 ∷ 53 ∷ []

abbrev workdays : CronExpression
workdays = record {
  minutes = 30 ∷ [];
  hours = 9 ∷ [];
  days =
      1 ∷ 2 ∷ 3 ∷ 4 ∷ 5 ∷ 6 ∷ 7 ∷ 8 ∷ 9 ∷ 10 ∷ 11 ∷ 12 ∷ 13 ∷ 14 ∷ 15 ∷ 16 ∷ 17 ∷ 18 ∷ 19 ∷ 20 ∷ 21
      ∷ 22 ∷ 23 ∷ 24 ∷ 25 ∷ 26 ∷ 27 ∷ 28 ∷ 29 ∷ 30 ∷ 31 ∷ [];
  months = 1 ∷ 2 ∷ 3 ∷ 4 ∷ 5 ∷ 6 ∷ 7 ∷ 8 ∷ 9 ∷ 10 ∷ 11 ∷ 12 ∷ [];
  weekdays = 1 ∷ 2 ∷ 3 ∷ 4 ∷ 5 ∷ [];
  dom_restricted = false;
  dow_restricted = true;
}

parse-workdays : parse expr ≡ some workdays
unfolding parse span
parse-workdays = refl

-- The 31st of February.
abbrev never : CronExpression
never = record workdays {
  days = 31 ∷ [];
  months = 2 ∷ [];
  dom_restricted = true;
  dow_restricted = false;
}

-- A Friday, and the Monday after it.
abbrev friday : Datetime
friday = record { year = 2024; month = 3; day = 1; hour = 9; minute = 30 }

abbrev monday : Datetime
monday = record { year = 2024; month = 3; day = 4; hour = 9; minute = 30 }

search_next-workdays : search_next workdays monday 100 (plus_minute friday) ≡ found monday
unfolding search_next contains days_in_month
search_next-workdays = refl

search_previous-workdays : search_previous workdays friday 100 (minus_minute monday) ≡ found friday
unfolding search_previous contains days_in_month
search_previous-workdays = refl

search_next-never : search_next never (record monday { year = 2026 }) 200 friday ≡ no_match
unfolding search_next contains advance_month days_in_month
search_next-never = refl

friday-IsValid : IsValid friday
unfolding days_in_month
friday-IsValid = omega arith

next_after-IsNext_example : IsNext workdays friday (next_after workdays friday)
next_after-IsNext_example = next_after-IsNext workdays friday friday-IsValid

previous_or_equal-IsPrevious_example :
    IsPrevious workdays friday (minus_days search_days friday) (previous_or_equal workdays friday)
previous_or_equal-IsPrevious_example =
    previous_or_equal-IsPrevious workdays friday friday-IsValid
      (omega (arith, year-minus_days search_days friday))

-- 5,*/20,30-40
abbrev parts : List Part
parts = star_step 20 ∷ range 30 40 ∷ []

parse_field_round_trip_example :
    (values : List ℕ) × ((parse_field 0 59 (print_field (value 5) parts) ≡ some values)
      × ((x : ℕ) → contains values x ≡ some_selects 0 59 (value 5) parts x))
parse_field_round_trip_example =
    parse_field_round_trip 0 59 (value 5) parts (omega arith) (omega arith)
