-- ===== src/Task/Expression/Next.antt =====
-- The search of `next_after` of task/_cron.py ends, at the first match.
use grelmicro.Prelude.{
  ℕ, zero, suc, ◌+◌, ◌-◌, ◌≤◌, ◌<◌, ◌≡◌, Bool, true, false, ◌&&◌, none, some, leb, nat_eq, contains,
  arith, Bool-cases, Option-cases, inl, inr,
}
use grelmicro.Task.Calendar.{
  Datetime, weekday, plus_day, plus_hour, plus_minute, plus_days, advance_month, stamp,
}
use grelmicro.Task.Calendar.Order.{
  IsValid, Skips, SameMonth, SameDay, SameHour, SameMinute, advance_month-Skips, next_day-Skips,
  next_hour-Skips, next_minute-Skips, plus_day-later,
}
use grelmicro.Task.Expression.{
  CronExpression, day_matches, advance, Search, found, no_match, out_of_fuel, search_next,
  next_after, search_days,
}

module _ (e : CronExpression) where
  -- A minute matches the expression.
  unfoldable pub matches : Datetime → Bool
  matches t =
      contains e.months t.month
      && day_matches e t
      && contains e.hours t.hour
      && contains e.minutes t.minute

  pub day_matches-SameDay : (u t : Datetime) → SameDay u t → day_matches e u ≡ day_matches e t
  unfolding day_matches weekday
  day_matches-SameDay u t s = ground (arith, s.0.0, s.0.1, s.1)

  -- No minute from `t` until `t'` matches.
  pub Unmatched : ℕ → ℕ → Type 0
  Unmatched lo hi = (u : Datetime) → IsValid u → lo ≤ stamp u → stamp u < hi → matches u ≡ false

  abbrev Moves : Datetime → Datetime → Type 0
  Moves t t' = IsValid t' × ((stamp t < stamp t') × Unmatched (stamp t) (stamp t'))

  by_skip :
      (Alike : Datetime → Datetime → Type 0) (t t' t'' : Datetime)
      → Skips Alike t t'
      → ((u : Datetime) → Alike u t → matches u ≡ false)
      → t' ≡ t''
      → Moves t t''
  unfolding Unmatched
  by_skip Alike t t' t'' s unmatched q =
      rw (← q) (s.valid, (s.later, λ u w lo hi. unmatched u (s.alike u w lo hi)))

  -- A round of the search skips no match.
  advance-Moves : (t t' : Datetime) → IsValid t → advance e t ≡ some t' → Moves t t'
  unfolding advance matches
  advance-Moves t t' v h = elim (Bool-cases (contains e.months t.month)) [
    | inr month ↦
        by_skip SameMonth t (advance_month t) t' (advance_month-Skips t v)
          (λ u s. ground (arith, s.1, month)) (ground (arith, month, h))
    | inl month ↦ elim (Bool-cases (day_matches e t)) [
      | inr day ↦
          by_skip SameDay t (plus_day (record t { hour = 0; minute = 0 })) t' (next_day-Skips t v)
            (λ u s. ground (arith, day_matches-SameDay u t s, day)) (ground (arith, month, day, h))
      | inl day ↦ elim (Bool-cases (contains e.hours t.hour)) [
        | inr hour ↦
            by_skip SameHour t (plus_hour (record t { minute = 0 })) t' (next_hour-Skips t v)
              (λ u s. ground (arith, s.1, hour)) (ground (arith, month, day, hour, h))
        | inl hour ↦
            by_skip SameMinute t (plus_minute t) t' (next_minute-Skips t v)
              (λ u s. ground (arith, s.1, h, month, day, hour))
              (ground (arith, month, day, hour, h))
      ]
    ]
  ]

  advance-matches : (t : Datetime) → advance e t ≡ none → matches t ≡ true
  unfolding advance matches
  advance-matches t h = ground (arith, h)

  -- What a search from `t` finds, by its limit: the first match from `t` on, or that there is none.
  pub First : Datetime → Datetime → Search → Type 0
  First t limit (found r) =
      ((matches r ≡ true) × IsValid r)
      × (((stamp t ≤ stamp r) × (stamp r ≤ stamp limit)) × Unmatched (stamp t) (stamp r))
  First t limit no_match = Unmatched (stamp t) (stamp limit + 1)
  First t limit out_of_fuel = ⊥

  First-Moves :
      (t t' limit : Datetime) (s : Search)
      → Moves t t'
      → stamp t ≤ stamp limit
      → First t' limit s
      → First t limit s
  unfolding First Unmatched
  First-Moves t t' limit (found r) (v, (later, skip)) le ((m, w), ((lo, hi), un)) = (
    (m, w),
    (
      (omega arith, hi),
      λ u w lo' hi'. elim (Bool-cases (leb (stamp t') (stamp u))) [
        | inl past ↦ un u w (ground (arith, past)) hi'
        | inr early ↦ skip u w lo' (ground (arith, early))
      ],
    ),
  )
  First-Moves t t' limit no_match (v, (later, skip)) le un = λ u w lo' hi'.
      elim (Bool-cases (leb (stamp t') (stamp u))) [
        | inl past ↦ un u w (ground (arith, past)) hi'
        | inr early ↦ skip u w lo' (ground (arith, early))
      ]
  First-Moves t t' limit out_of_fuel m le un = elim un [ ]

  search_next-First :
      (limit : Datetime) (fuel : ℕ) (t : Datetime)
      → IsValid t
      → stamp limit + 2 ≤ fuel + stamp t
      → 0 < fuel
      → First t limit (search_next e limit fuel t)
  unfolding search_next First Unmatched
  search_next-First limit zero t v enough pos = ground arith
  search_next-First limit (suc fuel) t v enough pos =
      elim (Bool-cases (leb (stamp t) (stamp limit))) [
        | inr past ↦
            let q : search_next e limit (suc fuel) t ≡ no_match = ground (arith, past) in
            rw q (λ u w lo hi. ground (arith, past))
        | inl within ↦
            let le : stamp t ≤ stamp limit = ground (arith, within) in
            elim (Option-cases (advance e t)) [
              | inl h ↦
                  let q : search_next e limit (suc fuel) t ≡ found t = ground (arith, within, h) in
                  rw q ((advance-matches t h, v), ((omega arith, le), λ u w lo hi. ground arith))
              | inr (t', h) ↦
                  let m = advance-Moves t t' v h in
                  let q : search_next e limit (suc fuel) t ≡ search_next e limit fuel t' =
                    ground (arith, within, h) in
                  rw q (
                    First-Moves t t' limit (search_next e limit fuel t') m le (
                      search_next-First limit fuel t' m.0 (omega (arith, m.1.0, enough))
                        (omega (arith, le, m.1.0, enough))))
            ]
      ]

  -- The last candidate of a search for the next match.
  abbrev pub last_candidate : Datetime → Datetime
  last_candidate dt = plus_days search_days (plus_minute dt)

  -- The first match after a datetime, or that there is none within five years of 366 days.
  abbrev pub IsNext : Datetime → Search → Type 0
  IsNext dt (found r) =
      ((matches r ≡ true) × IsValid r)
      × (((stamp dt < stamp r) × (stamp r ≤ stamp (last_candidate dt)))
          × Unmatched (suc (stamp dt)) (stamp r))
  IsNext dt no_match = Unmatched (suc (stamp dt)) (stamp (last_candidate dt) + 1)
  IsNext dt out_of_fuel = ⊥

  after :
      (dt : Datetime)
      → IsValid dt
      → (hi : ℕ) → Unmatched (stamp (plus_minute dt)) hi
      → Unmatched (suc (stamp dt)) hi
  unfolding Unmatched
  after dt v hi un u w lo hi' =
      let s = next_minute-Skips dt v in
      elim (Bool-cases (leb (stamp (plus_minute dt)) (stamp u))) [
        | inl past ↦ un u w (ground (arith, past)) hi'
        | inr early ↦
            let same = s.alike u w (omega arith) (ground (arith, early)) in ground (arith, same, lo)
      ]

  First-IsNext :
      (dt : Datetime)
      → IsValid dt
      → (s : Search) → First (plus_minute dt) (last_candidate dt) s
      → IsNext dt s
  unfolding First
  First-IsNext dt v (found r) ((m, w), ((lo, hi), un)) =
      ((m, w), ((omega (arith, (next_minute-Skips dt v).later, lo), hi), after dt v (stamp r) un))
  First-IsNext dt v no_match un = after dt v (stamp (last_candidate dt) + 1) un
  First-IsNext dt v out_of_fuel un = un

  plus_days-later : (n : ℕ) (t : Datetime) → IsValid t → stamp t ≤ stamp (plus_days n t)
  unfolding plus_days
  plus_days-later zero t v = omega arith
  plus_days-later (suc n) t v =
      let (w, lt) = plus_day-later t v in omega (arith, lt, plus_days-later n (plus_day t) w)

  -- The search for the next fire ends, and it returns the first minute after the given one that
  -- matches the expression; where it raises CronError, no minute within five years of 366 days does.
  pub next_after-IsNext : (dt : Datetime) → IsValid dt → IsNext dt (next_after e dt)
  unfolding next_after
  next_after-IsNext dt v =
      let t = plus_minute dt in
      let w = (next_minute-Skips dt v).valid in
      let limit = last_candidate dt in
      let le = plus_days-later search_days t w in
      First-IsNext dt v (next_after e dt) (
        search_next-First limit (stamp limit + 2 - stamp t) t w (omega (arith, le))
          (omega (arith, le)))
