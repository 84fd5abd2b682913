-- ===== src/Task/Calendar/Back.antt =====
-- The steps back of a datetime skip no minute that differs in a larger field.
use grelmicro.Prelude.{
  ℕ, zero, suc, ◌+◌, ◌-◌, ◌≤◌, ◌<◌, ◌≡◌, refl, ltb, arith, Bool-cases, inl, inr,
}
use grelmicro.Task.Calendar.{
  Datetime, days_in_month, stamp, minus_day, minus_hour, minus_minute, minus_days, retreat_month,
}
use grelmicro.Task.Calendar.Order.{
  IsValid, SameMonth, SameDay, SameHour, SameMinute, days_in_month-range,
}

-- From `t`, `t'` is earlier, and the times after `t'` up to `t` are alike.
pub record SkipsBack (Alike : Datetime → Datetime → Type 0) (t t' : Datetime) : Type 0 where
  pub valid : IsValid t'
  pub earlier : stamp t' < stamp t
  pub alike : (u : Datetime) → IsValid u → stamp t' < stamp u → stamp u ≤ stamp t → Alike u t

thirty_one : (y : ℕ) → days_in_month y 12 ≡ 31
unfolding days_in_month
thirty_one y = refl

module _ (t : Datetime) (v : IsValid t) (pos : 1 ≤ t.year) where
  pub last_day-SkipsBack : SkipsBack SameDay t (minus_day (record t { hour = 23; minute = 59 }))
  unfolding minus_day
  last_day-SkipsBack = record {
    valid = ground (
      arith,
      v.month_low,
      v.month_high,
      v.day_low,
      v.day_high,
      thirty_one (t.year - 1),
      days_in_month-range t.year (t.month - 1),
    );
    earlier = ground (arith, v.month_low, v.day_low, pos, days_in_month-range t.year (t.month - 1));
    alike = λ u w lo hi. ground (
      arith,
      pos,
      v.month_low,
      v.month_high,
      v.day_low,
      v.day_high,
      v.hour_high,
      v.minute_high,
      w.month_low,
      w.month_high,
      w.day_low,
      w.day_high,
      w.hour_high,
      w.minute_high,
      days_in_month-range t.year t.month,
      days_in_month-range u.year u.month,
    );
  }

  pub retreat_month-SkipsBack : SkipsBack SameMonth t (retreat_month t)
  unfolding retreat_month minus_minute minus_hour minus_day
  retreat_month-SkipsBack = record {
    valid = ground (
      arith,
      v.month_low,
      v.month_high,
      thirty_one (t.year - 1),
      days_in_month-range t.year (t.month - 1),
    );
    earlier = ground (arith, v.month_low, v.day_low, pos, days_in_month-range t.year (t.month - 1));
    alike = λ u w lo hi. ground (
      arith,
      pos,
      v.month_low,
      v.month_high,
      v.day_low,
      v.day_high,
      v.hour_high,
      v.minute_high,
      w.month_low,
      w.month_high,
      w.day_low,
      w.day_high,
      w.hour_high,
      w.minute_high,
      days_in_month-range t.year t.month,
      days_in_month-range u.year u.month,
    );
  }

  pub last_hour-SkipsBack : SkipsBack SameHour t (minus_hour (record t { minute = 59 }))
  unfolding minus_hour
  last_hour-SkipsBack = elim (Bool-cases (ltb 0 t.hour)) [
    | inl late ↦ rw late (record {
      valid = ground (arith, v.month_low, v.month_high, v.day_low, v.day_high, v.hour_high);
      earlier = ground (arith, late);
      alike = λ u w lo hi. ground (
        arith,
        late,
        v.month_low,
        v.month_high,
        v.day_low,
        v.day_high,
        v.hour_high,
        v.minute_high,
        w.month_low,
        w.month_high,
        w.day_low,
        w.day_high,
        w.hour_high,
        w.minute_high,
        days_in_month-range t.year t.month,
        days_in_month-range u.year u.month,
      );
    })
    | inr early ↦
        let s = last_day-SkipsBack in
        rw early (record {
          valid = s.valid;
          earlier = s.earlier;
          alike = λ u w lo hi.
              ground (arith, s.alike u w lo hi, early, hi, v.minute_high, w.minute_high);
        })
  ]

  pub last_minute-SkipsBack : SkipsBack SameMinute t (minus_minute t)
  unfolding minus_minute
  last_minute-SkipsBack = elim (Bool-cases (ltb 0 t.minute)) [
    | inl late ↦ rw late (record {
      valid =
          ground
            (arith, v.month_low, v.month_high, v.day_low, v.day_high, v.hour_high, v.minute_high);
      earlier = ground (arith, late);
      alike = λ u w lo hi. ground (
        arith,
        late,
        v.month_low,
        v.month_high,
        v.day_low,
        v.day_high,
        v.hour_high,
        v.minute_high,
        w.month_low,
        w.month_high,
        w.day_low,
        w.day_high,
        w.hour_high,
        w.minute_high,
        days_in_month-range t.year t.month,
        days_in_month-range u.year u.month,
      );
    })
    | inr early ↦
        let s = last_hour-SkipsBack in
        rw early (record {
          valid = s.valid;
          earlier = s.earlier;
          alike = λ u w lo hi. ground (arith, s.alike u w lo hi, early, hi);
        })
  ]

-- A datetime that is not before one of a positive year has a positive year.
pub year-pos :
    (t limit : Datetime) → IsValid t → 1 ≤ limit.year → stamp limit ≤ stamp t → 1 ≤ t.year
year-pos t limit v pos le = ground (
  arith,
  v.month_high,
  v.day_high,
  v.hour_high,
  v.minute_high,
  days_in_month-range t.year t.month,
)

minus_day-IsValid : (t : Datetime) → IsValid t → IsValid (minus_day t)
unfolding minus_day
minus_day-IsValid t v = ground (
  arith,
  v.month_low,
  v.month_high,
  v.day_low,
  v.day_high,
  v.hour_high,
  v.minute_high,
  thirty_one (t.year - 1),
  days_in_month-range t.year (t.month - 1),
)

minus_days-year : (n : ℕ) (t : Datetime) → (minus_days n t).year ≤ t.year
unfolding minus_days minus_day
minus_days-year zero t = omega arith
minus_days-year (suc n) t = ground (arith, minus_days-year n (minus_day t))

minus_day-earlier : (t : Datetime) → IsValid t → 1 ≤ t.year → stamp (minus_day t) ≤ stamp t
unfolding minus_day
minus_day-earlier t v pos =
    ground (arith, v.month_low, v.day_low, pos, days_in_month-range t.year (t.month - 1))

-- Days back never lead to a later time, unless the years run out.
pub minus_days-earlier :
    (n : ℕ) (t : Datetime)
    → IsValid t
    → 1 ≤ (minus_days n t).year
    → stamp (minus_days n t) ≤ stamp t
unfolding minus_days
minus_days-earlier zero t v pos = omega arith
minus_days-earlier (suc n) t v pos = omega (
  arith,
  minus_days-earlier n (minus_day t) (minus_day-IsValid t v) pos,
  minus_day-earlier t v (omega (arith, minus_days-year (suc n) t, pos)),
)

-- A day back is at most a year back.
pub year-minus_days : (n : ℕ) (t : Datetime) → t.year ≤ (minus_days n t).year + n
unfolding minus_days minus_day
year-minus_days zero t = omega arith
year-minus_days (suc n) t = ground (arith, year-minus_days n (minus_day t))
