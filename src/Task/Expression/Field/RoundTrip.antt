-- ===== src/Task/Expression/Field/RoundTrip.antt =====
-- A cron field that is printed by its parts is parsed by task/_cron.py to the numbers that they select.
use grelmicro.Prelude.{
  ℕ, ◌+◌, ◌-◌, ◌/◌, ◌%◌, ◌≤◌, ◌<◌, ◌≡◌, ◌≢◌, refl, ◌∙◌, Bool, true, false, ◌||◌, some, List, [],
  ◌∷◌, ◌++◌, ltb, ◌==◌, nat_beq_iff, nat_eq, contains, arith, if◌then◌else◌,
}
use grelmicro.Task.Expression.Field.{
  star_sign, comma, dash, slash, digits, int_of, parse_bounds, parse_part, parse_field, span,
}
use grelmicro.Task.Expression.Field.Numbers.{in_steps, contains-range}
use grelmicro.Text.{Text}
use grelmicro.Text.Split.{
  partition-append, partition_none, split_none, split-append, contains-append, contains-text,
}
use mathlib.Core.List.{append-nil, append_assoc}

-- What a field's part may be.
pub data Part : Type 0 where
  star : Part
  star_step : ℕ → Part
  value : ℕ → Part
  range : ℕ → ℕ → Part
  range_step : ℕ → ℕ → ℕ → Part

-- A number below 100, with no leading zero.
abbrev pub number : ℕ → Text
number n = if ltb n 10 then (48 + n) ∷ [] else (48 + n / 10) ∷ (48 + n % 10) ∷ []

abbrev pub print_part : Part → Text
print_part star = star_sign ∷ []
print_part (star_step n) = star_sign ∷ slash ∷ number n
print_part (value n) = number n
print_part (range a b) = number a ++ (dash ∷ number b)
print_part (range_step a b n) = number a ++ (dash ∷ (number b ++ (slash ∷ number n)))

-- The parts of a field, the first one and the others.
abbrev pub print_field : Part → List Part → Text
print_field part [] = print_part part
print_field part (next ∷ parts) = print_part part ++ (comma ∷ print_field next parts)

-- The numbers that a part selects.
abbrev pub selects : ℕ → ℕ → Part → ℕ → Bool
selects low high star x = in_steps low high 1 x
selects low high (star_step n) x = in_steps low high n x
selects low high (value n) x = x == n
selects low high (range a b) x = in_steps a b 1 x
selects low high (range_step a b n) x = in_steps a b n x

abbrev pub some_selects : ℕ → ℕ → Part → List Part → ℕ → Bool
some_selects low high part [] x = selects low high part x
some_selects low high part (next ∷ parts) x =
    selects low high part x || some_selects low high next parts x

-- A part whose numbers are within the field's bounds, in order, and below 100, with a step above 0.
abbrev pub Fits : ℕ → ℕ → Part → Type 0
Fits low high star = low ≤ high
Fits low high (star_step n) = (low ≤ high) × ((0 < n) × (n < 100))
Fits low high (value n) = (low ≤ n) × ((n ≤ high) × (n < 100))
Fits low high (range a b) = (low ≤ a) × ((a ≤ b) × ((b ≤ high) × (b < 100)))
Fits low high (range_step a b n) =
    (low ≤ a) × ((a ≤ b) × ((b ≤ high) × ((b < 100) × ((0 < n) × (n < 100)))))

abbrev pub AllFit : ℕ → ℕ → List Part → Type 0
AllFit low high [] = Unit
AllFit low high (part ∷ parts) = Fits low high part × AllFit low high parts

int_of-number : (n : ℕ) → n < 100 → int_of (number n) ≡ some n
unfolding int_of digits
int_of-number n lt = ground arith

number-lacks : (n sep : ℕ) → sep < 48 → contains (number n) sep ≡ false
unfolding contains
number-lacks n sep lt = ground arith

print_part-lacks : (part : Part) → contains (print_part part) comma ≡ false
unfolding contains
print_part-lacks star = refl
print_part-lacks (star_step n) = number-lacks n comma (omega arith)
print_part-lacks (value n) = number-lacks n comma (omega arith)
print_part-lacks (range a b) =
    contains-text (number a) (number b) dash comma (number-lacks a comma (omega arith))
      (number-lacks b comma (omega arith))
print_part-lacks (range_step a b n) =
    contains-text (number a) (number b ++ (slash ∷ number n)) dash comma
      (number-lacks a comma (omega arith))
      (contains-text (number b) (number n) slash comma (number-lacks b comma (omega arith))
        (number-lacks n comma (omega arith)))

-- The bounds that a printed range is read as.
bounds-range :
    (a b low high : ℕ) (stepped : Bool)
    → a ≤ b
    → b < 100
    → parse_bounds (number a ++ (dash ∷ number b)) low high stepped ≡ some (a, b)
unfolding parse_bounds
bounds-range a b low high stepped le lt = ground (
  arith,
  partition-append dash (number a) (number b) (number-lacks a dash (omega arith)),
  int_of-number a,
  int_of-number b lt,
)

bounds-value : (n low high : ℕ) → n < 100 → parse_bounds (number n) low high false ≡ some (n, n)
unfolding parse_bounds
bounds-value n low high lt =
    ground (
      arith,
      partition_none dash (number n) (number-lacks n dash (omega arith)),
      int_of-number n lt,
    )

module _ (low high start end : ℕ) where
  parse_part_plain :
      (s : Text)
      → s ≢ []
      → contains s slash ≡ false
      → parse_bounds s low high false ≡ some (start, end)
      → low ≤ start
      → end ≤ high
      → parse_part low high s ≡ some (span start 1 ((end - start) / 1 + 1))
  unfolding parse_part
  parse_part_plain [] ne lacks bounds ge le = absurd (ne refl)
  parse_part_plain (c ∷ s) ne lacks bounds ge le = ground (arith, partition_none slash (c ∷ s))

  parse_part_stepped :
      (s : Text) (n : ℕ)
      → contains s slash ≡ false
      → parse_bounds s low high true ≡ some (start, end)
      → low ≤ start
      → end ≤ high
      → 0 < n
      → n < 100
      → parse_part low high (s ++ (slash ∷ number n)) ≡ some (span start n ((end - start) / n + 1))
  unfolding parse_part
  parse_part_stepped [] n lacks bounds ge le pos lt =
      ground (arith, partition-append slash [] (number n), int_of-number n)
  parse_part_stepped (c ∷ s) n lacks bounds ge le pos lt =
      ground (arith, partition-append slash (c ∷ s) (number n), int_of-number n)

number-ne : (n : ℕ) → number n ≢ []
number-ne n e = ground arith

range_lacks : (a b : ℕ) → contains (number a ++ (dash ∷ number b)) slash ≡ false
unfolding contains
range_lacks a b =
    contains-text (number a) (number b) dash slash (number-lacks a slash (omega arith))
      (number-lacks b slash (omega arith))

range_ne : (a : ℕ) (s : Text) → number a ++ (dash ∷ s) ≢ []
range_ne a s e = ground arith

range_step-append :
    (a b : ℕ) (s : Text)
    → (number a ++ (dash ∷ number b)) ++ s ≡ number a ++ (dash ∷ (number b ++ s))
range_step-append a b s = append_assoc (number a) (dash ∷ number b) s

in_steps_value : (n x : ℕ) → in_steps n n 1 x ≡ (x == n)
in_steps_value n x = ground (arith, nat_beq_iff x n, nat_beq_iff n x)

-- The values that a part is parsed to.
abbrev part_values : ℕ → ℕ → Part → List ℕ
part_values low high star = span low 1 ((high - low) / 1 + 1)
part_values low high (star_step n) = span low n ((high - low) / n + 1)
part_values low high (value n) = span n 1 ((n - n) / 1 + 1)
part_values low high (range a b) = span a 1 ((b - a) / 1 + 1)
part_values low high (range_step a b n) = span a n ((b - a) / n + 1)

module _ (low high : ℕ) where
  parse_part-print_part :
      (part : Part)
      → Fits low high part
      → parse_part low high (print_part part) ≡ some (part_values low high part)
  unfolding parse_bounds contains
  parse_part-print_part star le =
      parse_part_plain low high low high (star_sign ∷ []) (λ e. ground arith) refl refl
        (omega arith) (omega arith)
  parse_part-print_part (star_step n) (le, (pos, lt)) =
      parse_part_stepped low high low high (star_sign ∷ []) n refl refl (omega arith) (omega arith)
        pos lt
  parse_part-print_part (value n) (ge, (le, lt)) =
      parse_part_plain low high n n (number n) (number-ne n) (number-lacks n slash (omega arith))
        (bounds-value n low high lt) ge le
  parse_part-print_part (range a b) (ge, (ord, (le, lt))) =
      parse_part_plain low high a b (number a ++ (dash ∷ number b)) (range_ne a (number b))
        (range_lacks a b) (bounds-range a b low high false ord lt) ge le
  parse_part-print_part (range_step a b n) (ge, (ord, (le, (lt, (pos, n_lt))))) =
      rw (← range_step-append a b (slash ∷ number n)) (
        parse_part_stepped low high a b (number a ++ (dash ∷ number b)) n (range_lacks a b)
          (bounds-range a b low high true ord lt) ge le pos n_lt)

  contains-part_values :
      (part : Part) (x : ℕ)
      → Fits low high part
      → contains (part_values low high part) x ≡ selects low high part x
  contains-part_values star x le = contains-range low high 1 x le (omega arith)
  contains-part_values (star_step n) x (le, (pos, lt)) = contains-range low high n x le pos
  contains-part_values (value n) x (ge, (le, lt)) =
      contains-range n n 1 x (omega arith) (omega arith) ∙ in_steps_value n x
  contains-part_values (range a b) x (ge, (ord, (le, lt))) =
      contains-range a b 1 x ord (omega arith)
  contains-part_values (range_step a b n) x (ge, (ord, (le, (lt, (pos, n_lt))))) =
      contains-range a b n x ord pos

  all_values : Part → List Part → List ℕ
  all_values part [] = part_values low high part
  all_values part (next ∷ parts) = part_values low high part ++ all_values next parts

  parse_field-print_field :
      (part : Part) (parts : List Part)
      → Fits low high part
      → AllFit low high parts
      → parse_field low high (print_field part parts) ≡ some (all_values part parts)
  unfolding parse_field all_values
  parse_field-print_field part [] fits all = ground (
    arith,
    split_none comma (print_part part) (print_part-lacks part),
    parse_part-print_part part fits,
    append-nil (part_values low high part),
  )
  parse_field-print_field part (next ∷ parts) fits (next_fits, all) = ground (
    arith,
    split-append comma (print_part part) (print_field next parts) (print_part-lacks part),
    parse_part-print_part part fits,
    parse_field-print_field next parts next_fits all,
  )

  contains-all_values :
      (part : Part) (parts : List Part) (x : ℕ)
      → Fits low high part
      → AllFit low high parts
      → contains (all_values part parts) x ≡ some_selects low high part parts x
  unfolding all_values
  contains-all_values part [] x fits all = contains-part_values part x fits
  contains-all_values part (next ∷ parts) x fits (next_fits, all) = ground (
    arith,
    contains-append (part_values low high part) (all_values next parts) x,
    contains-part_values part x fits,
    contains-all_values next parts x next_fits all,
  )

-- A field printed from parts that fit its bounds is parsed, and a number is in the result exactly
-- when one of the parts selects it.
pub parse_field_round_trip :
    (low high : ℕ) (part : Part) (parts : List Part)
    → Fits low high part
    → AllFit low high parts
    → (values : List ℕ) × ((parse_field low high (print_field part parts) ≡ some values)
        × ((x : ℕ) → contains values x ≡ some_selects low high part parts x))
parse_field_round_trip low high part parts fits all = (
  all_values low high part parts,
  (
    parse_field-print_field low high part parts fits all,
    λ x. contains-all_values low high part parts x fits all,
  ),
)
