-- ===== src/Task/Calendar/Order.antt =====
-- The steps of a datetime skip no minute that differs in a larger field.
use grelmicro.Prelude.{ℕ, ◌+◌, ◌≤◌, ◌<◌, ◌≡◌, ltb, arith, Bool-cases, inl, inr}
use grelmicro.Task.Calendar.{
  Datetime, days_in_month, stamp, plus_day, plus_hour, plus_minute, advance_month,
}

pub record IsValid (t : Datetime) : Type 0 where
  pub month_low : 1 ≤ t.month
  pub month_high : t.month ≤ 12
  pub day_low : 1 ≤ t.day
  pub day_high : t.day ≤ days_in_month t.year t.month
  pub hour_high : t.hour < 24
  pub minute_high : t.minute < 60

pub days_in_month-range : (y m : ℕ) → (28 ≤ days_in_month y m) × (days_in_month y m ≤ 31)
unfolding days_in_month
days_in_month-range y m = ground arith

abbrev pub SameMonth : Datetime → Datetime → Type 0
SameMonth u t = (u.year ≡ t.year) × (u.month ≡ t.month)

abbrev pub SameDay : Datetime → Datetime → Type 0
SameDay u t = SameMonth u t × (u.day ≡ t.day)

abbrev pub SameHour : Datetime → Datetime → Type 0
SameHour u t = SameDay u t × (u.hour ≡ t.hour)

abbrev pub SameMinute : Datetime → Datetime → Type 0
SameMinute u t = SameHour u t × (u.minute ≡ t.minute)

-- From `t`, `t'` is later, and the times from `t` until `t'` are alike.
pub record Skips (Alike : Datetime → Datetime → Type 0) (t t' : Datetime) : Type 0 where
  pub valid : IsValid t'
  pub later : stamp t < stamp t'
  pub alike : (u : Datetime) → IsValid u → stamp t ≤ stamp u → stamp u < stamp t' → Alike u t

module _ (t : Datetime) (v : IsValid t) where
  pub advance_month-Skips : Skips SameMonth t (advance_month t)
  unfolding advance_month
  advance_month-Skips = record {
    valid = ground (
      arith,
      v.month_low,
      v.month_high,
      days_in_month-range (t.year + 1) 1,
      days_in_month-range t.year (t.month + 1),
    );
    later = ground (
      arith,
      v.month_high,
      v.day_high,
      v.hour_high,
      v.minute_high,
      days_in_month-range t.year t.month,
    );
    alike = λ u w lo hi. ground (
      arith,
      v.month_low,
      v.month_high,
      v.day_high,
      v.hour_high,
      v.minute_high,
      w.month_low,
      w.month_high,
      w.day_low,
      w.day_high,
      w.hour_high,
      w.minute_high,
      days_in_month-range t.year t.month,
      days_in_month-range u.year u.month,
    );
  }

  pub next_day-Skips : Skips SameDay t (plus_day (record t { hour = 0; minute = 0 }))
  unfolding plus_day
  next_day-Skips = record {
    valid = ground (
      arith,
      v.month_low,
      v.month_high,
      v.day_low,
      v.day_high,
      days_in_month-range (t.year + 1) 1,
      days_in_month-range t.year (t.month + 1),
    );
    later = ground (
      arith,
      v.month_high,
      v.day_high,
      v.hour_high,
      v.minute_high,
      days_in_month-range t.year t.month,
    );
    alike = λ u w lo hi. ground (
      arith,
      v.month_low,
      v.month_high,
      v.day_low,
      v.day_high,
      v.hour_high,
      v.minute_high,
      w.month_low,
      w.month_high,
      w.day_low,
      w.day_high,
      w.hour_high,
      w.minute_high,
      days_in_month-range t.year t.month,
      days_in_month-range u.year u.month,
    );
  }

  pub next_hour-Skips : Skips SameHour t (plus_hour (record t { minute = 0 }))
  unfolding plus_hour
  next_hour-Skips = elim (Bool-cases (ltb t.hour 23)) [
    | inl early ↦ rw early (record {
      valid = ground (arith, v.month_low, v.month_high, v.day_low, v.day_high, early);
      later = ground (arith, v.minute_high);
      alike = λ u w lo hi. ground (
        arith,
        v.month_low,
        v.month_high,
        v.day_low,
        v.day_high,
        v.hour_high,
        v.minute_high,
        w.month_low,
        w.month_high,
        w.day_low,
        w.day_high,
        w.hour_high,
        w.minute_high,
        days_in_month-range t.year t.month,
        days_in_month-range u.year u.month,
      );
    })
    | inr late ↦
        let s = next_day-Skips in
        rw late (record {
          valid = s.valid;
          later = s.later;
          alike = λ u w lo hi. ground (
            arith,
            s.alike u w lo hi,
            late,
            lo,
            v.hour_high,
            w.hour_high,
            w.minute_high,
            v.minute_high,
          );
        })
  ]

  pub next_minute-Skips : Skips SameMinute t (plus_minute t)
  unfolding plus_minute
  next_minute-Skips = elim (Bool-cases (ltb t.minute 59)) [
    | inl early ↦ rw early (record {
      valid = ground (arith, v.month_low, v.month_high, v.day_low, v.day_high, v.hour_high, early);
      later = omega arith;
      alike = λ u w lo hi. ground (
        arith,
        v.month_low,
        v.month_high,
        v.day_low,
        v.day_high,
        v.hour_high,
        v.minute_high,
        w.month_low,
        w.month_high,
        w.day_low,
        w.day_high,
        w.hour_high,
        w.minute_high,
        days_in_month-range t.year t.month,
        days_in_month-range u.year u.month,
      );
    })
    | inr late ↦
        let s = next_hour-Skips in
        rw late (record {
          valid = s.valid;
          later = s.later;
          alike = λ u w lo hi.
              ground (arith, s.alike u w lo hi, late, lo, w.minute_high, v.minute_high);
        })
  ]

  pub plus_day-later : IsValid (plus_day t) × (stamp t < stamp (plus_day t))
  unfolding plus_day
  plus_day-later = (
    ground (
      arith,
      v.month_low,
      v.month_high,
      v.day_low,
      v.day_high,
      v.hour_high,
      v.minute_high,
      days_in_month-range (t.year + 1) 1,
      days_in_month-range t.year (t.month + 1),
    ),
    ground (arith, v.month_high, v.day_high, days_in_month-range t.year t.month),
  )
