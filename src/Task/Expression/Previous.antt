-- ===== src/Task/Expression/Previous.antt =====
-- The search of `previous_or_equal` of task/_cron.py ends, at the last match.
use grelmicro.Prelude.{
  ℕ, zero, suc, ◌+◌, ◌-◌, ◌≤◌, ◌<◌, ◌≡◌, true, false, none, some, leb, nat_eq, contains, arith,
  Bool-cases, Option-cases, inl, inr,
}
use grelmicro.Task.Calendar.{
  Datetime, minus_day, minus_hour, minus_minute, minus_days, retreat_month, stamp,
}
use grelmicro.Task.Calendar.Order.{IsValid, SameMonth, SameDay, SameHour, SameMinute}
use grelmicro.Task.Calendar.Back.{
  SkipsBack, retreat_month-SkipsBack, last_day-SkipsBack, last_hour-SkipsBack,
  last_minute-SkipsBack, year-pos, minus_days-earlier,
}
use grelmicro.Task.Expression.{
  CronExpression, day_matches, retreat, Search, found, no_match, out_of_fuel, search_previous,
  previous_or_equal, search_days,
}
use grelmicro.Task.Expression.Next.{matches, day_matches-SameDay}

module _ (e : CronExpression) where
  -- No minute after `lo` up to `hi` matches, by their stamps.
  abbrev pub Unmatched : ℕ → ℕ → Type 0
  Unmatched lo hi = (u : Datetime) → IsValid u → lo < stamp u → stamp u ≤ hi → matches e u ≡ false

  abbrev Moves : Datetime → Datetime → Type 0
  Moves t t' = IsValid t' × ((stamp t' < stamp t) × Unmatched (stamp t') (stamp t))

  by_skip :
      (Alike : Datetime → Datetime → Type 0) (t t' t'' : Datetime)
      → SkipsBack Alike t t'
      → ((u : Datetime) → Alike u t → matches e u ≡ false)
      → t' ≡ t''
      → Moves t t''
  by_skip Alike t t' t'' s unmatched q =
      rw (← q) (s.valid, (s.earlier, λ u w lo hi. unmatched u (s.alike u w lo hi)))

  retreat-Moves : (t t' : Datetime) → IsValid t → 1 ≤ t.year → retreat e t ≡ some t' → Moves t t'
  unfolding retreat matches
  retreat-Moves t t' v pos h = elim (Bool-cases (contains e.months t.month)) [
    | inr month ↦
        by_skip SameMonth t (retreat_month t) t' (retreat_month-SkipsBack t v pos)
          (λ u s. ground (arith, s.1, month)) (ground (arith, month, h))
    | inl month ↦ elim (Bool-cases (day_matches e t)) [
      | inr day ↦
          by_skip SameDay t (minus_day (record t { hour = 23; minute = 59 })) t'
            (last_day-SkipsBack t v pos) (λ u s. ground (arith, day_matches-SameDay e u t s, day))
            (ground (arith, month, day, h))
      | inl day ↦ elim (Bool-cases (contains e.hours t.hour)) [
        | inr hour ↦
            by_skip SameHour t (minus_hour (record t { minute = 59 })) t'
              (last_hour-SkipsBack t v pos) (λ u s. ground (arith, s.1, hour))
              (ground (arith, month, day, hour, h))
        | inl hour ↦
            by_skip SameMinute t (minus_minute t) t' (last_minute-SkipsBack t v pos)
              (λ u s. ground (arith, s.1, h, month, day, hour))
              (ground (arith, month, day, hour, h))
      ]
    ]
  ]

  retreat-matches : (t : Datetime) → retreat e t ≡ none → matches e t ≡ true
  unfolding retreat matches
  retreat-matches t h = ground (arith, h)

  -- The last match at or before a datetime, or that there is none from the limit on.
  abbrev pub IsPrevious : Datetime → Datetime → Search → Type 0
  IsPrevious t limit (found r) =
      ((matches e r ≡ true) × IsValid r)
      × (((stamp limit ≤ stamp r) × (stamp r ≤ stamp t)) × Unmatched (stamp r) (stamp t))
  IsPrevious t limit no_match =
      (u : Datetime) → IsValid u → stamp limit ≤ stamp u → stamp u ≤ stamp t → matches e u ≡ false
  IsPrevious t limit out_of_fuel = ⊥

  IsPrevious-Moves :
      (t t' limit : Datetime) (s : Search)
      → Moves t t'
      → stamp limit ≤ stamp t
      → IsPrevious t' limit s
      → IsPrevious t limit s
  IsPrevious-Moves t t' limit (found r) (v, (earlier, skip)) le ((m, w), ((lo, hi), un)) = (
    (m, w),
    (
      (lo, omega arith),
      λ u w lo' hi'. elim (Bool-cases (leb (stamp u) (stamp t'))) [
        | inl past ↦ un u w lo' (ground (arith, past))
        | inr late ↦ skip u w (ground (arith, late)) hi'
      ],
    ),
  )
  IsPrevious-Moves t t' limit no_match (v, (earlier, skip)) le un = λ u w lo' hi'.
      elim (Bool-cases (leb (stamp u) (stamp t'))) [
        | inl past ↦ un u w lo' (ground (arith, past))
        | inr late ↦ skip u w (ground (arith, late)) hi'
      ]
  IsPrevious-Moves t t' limit out_of_fuel m le un = elim un [ ]

  search_previous-IsPrevious :
      (limit : Datetime) (fuel : ℕ) (t : Datetime)
      → 1 ≤ limit.year
      → IsValid t
      → stamp t + 2 ≤ fuel + stamp limit
      → 0 < fuel
      → IsPrevious t limit (search_previous e limit fuel t)
  unfolding search_previous
  search_previous-IsPrevious limit zero t year v enough pos = ground arith
  search_previous-IsPrevious limit (suc fuel) t year v enough pos =
      elim (Bool-cases (leb (stamp limit) (stamp t))) [
        | inr past ↦
            let q : search_previous e limit (suc fuel) t ≡ no_match = ground (arith, past) in
            rw q (λ u w lo hi. ground (arith, past))
        | inl within ↦
            let le : stamp limit ≤ stamp t = ground (arith, within) in
            elim (Option-cases (retreat e t)) [
              | inl h ↦
                  let q : search_previous e limit (suc fuel) t ≡ found t =
                    ground (arith, within, h) in
                  rw q ((retreat-matches t h, v), ((le, omega arith), λ u w lo hi. ground arith))
              | inr (t', h) ↦
                  let m = retreat-Moves t t' v (year-pos t limit v year le) h in
                  let q : search_previous e limit (suc fuel) t ≡ search_previous e limit fuel t' =
                    ground (arith, within, h) in
                  rw q (
                    IsPrevious-Moves t t' limit (search_previous e limit fuel t') m le (
                      search_previous-IsPrevious limit fuel t' year m.0
                        (omega (arith, m.1.0, enough)) (omega (arith, le, m.1.0, enough))))
            ]
      ]

  -- The search for the most recent fire ends, and it returns the last minute up to the given one that
  -- matches the expression; where it returns None, no minute of the five years of 366 days before
  -- does. The search must not run out of years, where the source raises OverflowError.
  pub previous_or_equal-IsPrevious :
      (dt : Datetime)
      → IsValid dt
      → 1 ≤ (minus_days search_days dt).year
      → IsPrevious dt (minus_days search_days dt) (previous_or_equal e dt)
  unfolding previous_or_equal
  previous_or_equal-IsPrevious dt v year =
      let limit = minus_days search_days dt in
      let le = minus_days-earlier search_days dt v year in
      search_previous-IsPrevious limit (stamp dt + 2 - stamp limit) dt year v (omega (arith, le))
        (omega (arith, le))
