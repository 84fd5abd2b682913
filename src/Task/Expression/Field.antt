-- ===== src/Task/Expression/Field.antt =====
-- The parser of cron fields of task/_cron.py. A text is the list of its code points, which are ASCII;
-- none is CronError. That `int` refuses numbers of more than 4300 digits is left out.
pub mod Numbers
pub mod RoundTrip
use grelmicro.Prelude.{
  ℕ, zero, suc, ◌+◌, ◌-◌, ◌*◌, ◌/◌, ◌%◌, Bool, true, false, not, ◌&&◌, ◌||◌, Option, none, some,
  List, [], ◌∷◌, ◌++◌, map, leb, ltb, nat_beq, nat_eq, contains, length, if◌then◌else◌,
}
use grelmicro.Text.{Text, to_head, split, partition, is_str_space, is_digit}
use grelmicro.Task.Expression.{CronExpression}

-- The characters `*` `+` `,` `-` `/` `_`
abbrev pub star_sign : ℕ
star_sign = 42

abbrev pub plus : ℕ
plus = 43

abbrev pub comma : ℕ
comma = 44

abbrev pub dash : ℕ
dash = 45

abbrev pub slash : ℕ
slash = 47

abbrev pub underscore : ℕ
underscore = 95

-- The digits of `int(s)`, after a digit or not; an underscore stands between two digits.
unfoldable pub digits : Bool → ℕ → Text → Option ℕ
digits after n [] = if after then some n else none
digits after n (c ∷ s) = elim (is_digit c) [
  | true ↦ digits true (n * 10 + (c - 48)) s
  | false ↦ elim (after && nat_beq c underscore) [ true ↦ digits false n s | false ↦ none ]
]

abbrev pub not_negative : Option ℕ → Option ℕ
not_negative none = none
not_negative (some zero) = some zero
not_negative (some (suc n)) = none

-- `int(s)`. A negative number is none as well: it makes every caller raise CronError, as a text that
-- is no number does.
unfoldable pub int_of : Text → Option ℕ
unfolding digits
int_of [] = none
int_of (c ∷ s) =
    if nat_beq c dash
    then not_negative (digits false 0 s)
    else if nat_beq c plus
    then digits false 0 s
    else digits false 0 (c ∷ s)

abbrev pub positive : Option ℕ → Option ℕ
positive none = none
positive (some step) = if leb step 0 then none else some step

-- `_parse_step`
abbrev pub parse_step : Text → Option ℕ
parse_step s = positive (int_of s)

abbrev pub in_order : Option ℕ → Option ℕ → Option (ℕ × ℕ)
in_order none end = none
in_order (some start) none = none
in_order (some start) (some end) = if ltb end start then none else some (start, end)

abbrev pub both : Option ℕ → Option (ℕ × ℕ)
both none = none
both (some value) = some (value, value)

abbrev pub is_star : Text → Bool
is_star [] = false
is_star (c ∷ []) = nat_beq c star_sign
is_star (c ∷ d ∷ s) = false

-- `_parse_bounds`
unfoldable pub parse_bounds : Text → ℕ → ℕ → Bool → Option (ℕ × ℕ)
unfolding partition int_of
parse_bounds spec low high stepped =
    let (before, (ranged, after)) = partition dash spec in
    if is_star spec
    then some (low, high)
    else if ranged
    then in_order (int_of before) (int_of after)
    else if stepped
    then none
    else both (int_of spec)

-- `range(start, end + 1, step)`, by the number of its values.
unfoldable pub span : ℕ → ℕ → ℕ → List ℕ
span start step zero = []
span start step (suc n) = start ∷ span (start + step) step n

abbrev pub values_of : ℕ → ℕ → Option (ℕ × ℕ) → Option ℕ → Option (List ℕ)
values_of low high none step = none
values_of low high (some (start, end)) none = none
values_of low high (some (start, end)) (some step) =
    if ltb start low || ltb high end
    then none
    else some (span start step ((end - start) / step + 1))

-- A round of the loop of `_parse_field`.
unfoldable pub parse_part : ℕ → ℕ → Text → Option (List ℕ)
unfolding parse_bounds
parse_part low high [] = none
parse_part low high (c ∷ part) =
    let (range_spec, (sep, step_spec)) = partition slash (c ∷ part) in
    let step = if sep then parse_step step_spec else some 1 in
    values_of low high (parse_bounds range_spec low high sep) step

abbrev pub update : Option (List ℕ) → Option (List ℕ) → Option (List ℕ)
update none rest = none
update (some values) none = none
update (some values) (some rest) = some (values ++ rest)

unfoldable pub parse_parts : ℕ → ℕ → List Text → Option (List ℕ)
unfolding parse_part
parse_parts low high [] = some []
parse_parts low high (part ∷ parts) = update (parse_part low high part) (parse_parts low high parts)

-- `_parse_field`; the set is the list of its values, in some order.
unfoldable pub parse_field : ℕ → ℕ → Text → Option (List ℕ)
unfolding parse_parts split
parse_field low high field = parse_parts low high (split comma field)

abbrev pub starts_word : Text → Bool
starts_word [] = false
starts_word (c ∷ s) = not (is_str_space c)

-- `expr.split()`
unfoldable pub words : Text → List Text
words [] = []
words (c ∷ s) =
    let rest = words s in
    if is_str_space c then rest else if starts_word s then to_head c rest else (c ∷ []) ∷ rest

-- Sunday is 0 and 7.
abbrev pub sunday : ℕ → ℕ
sunday d = if nat_beq d 7 then 0 else d

-- The end of `CronExpression.__init__`, by the values of each field and by whether the day fields
-- are restricted.
abbrev pub build :
    Option (List ℕ)
    → Option (List ℕ)
    → Option (List ℕ)
    → Option (List ℕ)
    → Option (List ℕ)
    → Bool
    → Bool
    → Option CronExpression
build (some minutes) (some hours) (some days) (some months) (some dow) dom_restricted
      dow_restricted =
    some (record {
      minutes = minutes;
      hours = hours;
      days = days;
      months = months;
      weekdays = map sunday dow;
      dom_restricted = dom_restricted;
      dow_restricted = dow_restricted;
    })
build _ _ _ _ _ _ _ = none

unfoldable pub parse_fields : List Text → Option CronExpression
unfolding parse_field
parse_fields (minute ∷ hour ∷ day ∷ month ∷ weekday ∷ []) =
    build (parse_field 0 59 minute) (parse_field 0 23 hour) (parse_field 1 31 day)
      (parse_field 1 12 month) (parse_field 0 7 weekday) (not (is_star day)) (not (is_star weekday))
parse_fields _ = none

-- `CronExpression.__init__`
unfoldable pub parse : Text → Option CronExpression
unfolding parse_fields words
parse expr = parse_fields (words expr)
