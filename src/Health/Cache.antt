-- ===== src/Health/Cache.antt =====
-- How often the rounds of health/_checks.py run a check.
use grelmicro.Prelude.{
  ℕ, ◌+◌, ◌-◌, ◌*◌, ◌≤◌, ◌<◌, ◌≡◌, ◌⊎◌, refl, ap, sym, Bool, true, false, Option, none, some, List,
  [], ◌∷◌, arith, Bool-cases, Option-cases, inl, inr,
}
use mathlib.Core.Path.{subst}
use grelmicro.Text.{Text}
use grelmicro.Health.{CheckResult, Outcome, new_entry, fresh}
use grelmicro.Health.Flight.{
  Flight, idle, ask, leads, waits, finish, cancel, Event, asks, finishes, cancels, time, happen,
  ended, executions, happens, InOrder,
}

-- The last result is as old as the ttl, if there is one.
abbrev Stale : ℕ → ℕ → ℕ → Option CheckResult → Type 0
Stale ttl now cached_at none = Unit
Stale ttl now cached_at (some r) = cached_at + ttl ≤ now

-- No run is under way, or one is, which began when the last result was stale.
abbrev Flies : ℕ → ℕ → Flight → Type 0
Flies ttl now f =
    ((f.inflight ≡ false) × (f.running ≡ 0))
    ⊎ ((f.inflight ≡ true)
        × ((f.running ≡ 1) × Stale ttl now f.entry.cached_at f.entry.cached_result))

-- The time that the runs to come may take.
abbrev allowance : ℕ → ℕ → ℕ → ℕ → Option CheckResult → ℕ
allowance ttl now end cached_at none = ttl + (end - now)
allowance ttl now end cached_at (some r) = end - cached_at

InOrder-le : (start end : ℕ) (events : List Event) → InOrder start events end → start ≤ end
InOrder-le start end [] h = h
InOrder-le start end (e ∷ events) h = omega (arith, h.0, InOrder-le (time e) end events h.1)

Stale-later :
    (ttl start now cached_at : ℕ) (o : Option CheckResult)
    → start ≤ now
    → Stale ttl start cached_at o
    → Stale ttl now cached_at o
Stale-later ttl start now cached_at none le h = tt
Stale-later ttl start now cached_at (some r) le h = omega (arith, le, h)

Flies-later : (ttl start now : ℕ) (f : Flight) → start ≤ now → Flies ttl start f → Flies ttl now f
Flies-later ttl start now f le (inl free) = inl free
Flies-later ttl start now f le (inr h) =
    inr (h.0, (h.1.0, Stale-later ttl start now f.entry.cached_at f.entry.cached_result le h.1.1))

fresh-Stale :
    (ttl now cached_at : ℕ) (o : Option CheckResult)
    → 0 < ttl
    → cached_at ≤ now
    → fresh ttl now cached_at o ≡ none
    → Stale ttl now cached_at o
fresh-Stale ttl now cached_at none pos le q = tt
fresh-Stale ttl now cached_at (some r) pos le q = ground (arith, pos, le, q)

ask-Flies :
    (ttl now : ℕ) (f : Flight)
    → 0 < ttl
    → f.entry.cached_at ≤ now
    → Flies ttl now f
    → Flies ttl now (ask ttl now f).1
unfolding ask
ask-Flies ttl now f pos le h =
    elim (Option-cases (fresh ttl now f.entry.cached_at f.entry.cached_result)) [
      | inr (r, hit) ↦ rw (hit, ask) h
      | inl miss ↦ elim (Bool-cases f.inflight) [
        | inl busy ↦ let q : ask ttl now f ≡ (waits, f) = ground (arith, miss, busy) in rw q h
        | inr free ↦
            let none_runs : f.running ≡ 0 = elim h [
              | inl i ↦ i.1
              | inr b ↦ ground (arith, b.0, free)
            ] in
            let q : ask ttl now f ≡ (leads, record f { inflight = true; running = f.running + 1 }) =
              ground (arith, miss, free) in
            rw q (
              inr (
                refl,
                (
                  omega (arith, none_runs),
                  fresh-Stale ttl now f.entry.cached_at f.entry.cached_result pos le miss,
                ),
              ))
      ]
    ]

ask_entry : (ttl now : ℕ) (f : Flight) → (ask ttl now f).1.entry ≡ f.entry
unfolding ask
ask_entry ttl now f = ground arith

spends :
    (ttl start now end n cached_at : ℕ) (o : Option CheckResult)
    → start ≤ now
    → now ≤ end
    → Stale ttl now cached_at o
    → n * ttl ≤ end - now
    → (1 + n) * ttl ≤ allowance ttl start end cached_at o
spends ttl start now end n cached_at none le last h few = omega (arith, le, last, few)
spends ttl start now end n cached_at (some r) le last h few = omega (arith, le, last, h, few)

allowance-later :
    (ttl start now end cached_at : ℕ) (o : Option CheckResult)
    → start ≤ now
    → allowance ttl now end cached_at o ≤ allowance ttl start end cached_at o
allowance-later ttl start now end cached_at none le = omega (arith, le)
allowance-later ttl start now end cached_at (some r) le = omega arith

module _ (ttl end : ℕ) (pos : 0 < ttl) where
  abbrev Spent : ℕ → List Event → Flight → Type 0
  Spent start events f =
      (executions ttl events f * ttl
        ≤ allowance ttl start end f.entry.cached_at f.entry.cached_result)
      × ((happens ttl events f).running ≤ 1)

  -- An event that leaves the entry as it is.
  same-Spent :
      (start : ℕ) (e : Event) (events : List Event) (f f' : Flight)
      → start ≤ time e
      → happen ttl e f ≡ f'
      → f'.entry ≡ f.entry
      → ended e f ≡ 0
      → Spent (time e) events f'
      → Spent start (e ∷ events) f
  unfolding executions happens
  same-Spent start e events f f' le q same zero_ended h =
      let counted : executions ttl (e ∷ events) f ≡ ended e f + executions ttl events f' =
        ap (λ x. ended e f + executions ttl events x) q in
      let few : executions ttl events f' * ttl
          ≤ allowance ttl (time e) end f.entry.cached_at f.entry.cached_result =
        subst
          (λ x.
            executions ttl events f' * ttl ≤ allowance ttl (time e) end x.cached_at x.cached_result)
          same h.0 in
      let more =
        allowance-later ttl start (time e) end f.entry.cached_at f.entry.cached_result le in
      (
        rw (counted, zero_ended) (omega (arith, few, more)),
        subst (λ x. (happens ttl events x).running ≤ 1) (sym q) h.1,
      )

  ended-Spent :
      (start later : ℕ) (outcome : Outcome) (events : List Event) (f : Flight)
      → start ≤ later
      → later ≤ end
      → f.running ≡ 1
      → Stale ttl start f.entry.cached_at f.entry.cached_result
      → Spent later events (finish outcome later f)
      → Spent start (finishes outcome later ∷ events) f
  unfolding executions happens happen finish
  ended-Spent start later outcome events f le last one stale h =
      let q : happen ttl (finishes outcome later) f ≡ finish outcome later f =
        ground (arith, one) in
      let counts : ended (finishes outcome later) f ≡ 1 = ground (arith, one) in
      let counted : executions ttl (finishes outcome later ∷ events) f
          ≡ ended (finishes outcome later) f + executions ttl events (finish outcome later f) =
        ap (λ x. ended (finishes outcome later) f + executions ttl events x) q in
      (
        rw (counted, counts)
            (spends ttl start later end (executions ttl events (finish outcome later f))
              f.entry.cached_at f.entry.cached_result le last
              (Stale-later ttl start later f.entry.cached_at f.entry.cached_result le stale) h.0),
        subst (λ x. (happens ttl events x).running ≤ 1) (sym q) h.1,
      )

  events-Spent :
      (start : ℕ) (events : List Event) (f : Flight)
      → InOrder start events end
      → f.entry.cached_at ≤ start
      → Flies ttl start f
      → Spent start events f
  unfolding executions happens happen finish cancel
  events-Spent start [] f order past h =
      (omega arith, elim h [ inl i ↦ omega (arith, i.1) | inr b ↦ omega (arith, b.1.0) ])
  events-Spent start (asks now ∷ events) f order past h =
      same-Spent start (asks now) events f (ask ttl now f).1 order.0 refl (ask_entry ttl now f) refl
        (events-Spent now events (ask ttl now f).1 order.1
          (rw (ask_entry ttl now f) (omega (arith, past, order.0)))
          (ask-Flies ttl now f pos (omega (arith, past, order.0))
            (Flies-later ttl start now f order.0 h)))
  events-Spent start (finishes outcome later ∷ events) f order past (inl i) =
      same-Spent start (finishes outcome later) events f f order.0 (ground (arith, i.1)) refl
        (ground (arith, i.1))
        (events-Spent later events f order.1 (omega (arith, past, order.0)) (inl i))
  events-Spent start (finishes outcome later ∷ events) f order past (inr b) =
      ended-Spent start later outcome events f order.0 (InOrder-le later end events order.1) b.1.0
        b.1.1
        (events-Spent later events (finish outcome later f) order.1 (omega arith)
          (inl (refl, omega (arith, b.1.0))))
  events-Spent start (cancels now ∷ events) f order past (inl i) =
      same-Spent start (cancels now) events f f order.0 (ground (arith, i.1)) refl refl
        (events-Spent now events f order.1 (omega (arith, past, order.0)) (inl i))
  events-Spent start (cancels now ∷ events) f order past (inr b) =
      same-Spent start (cancels now) events f (cancel f) order.0 (ground (arith, b.1.0)) refl refl (
        events-Spent now events (cancel f) order.1 (omega (arith, past, order.0))
          (inl (refl, omega (arith, b.1.0))))

-- From its registration on, whatever rounds ask for a check, together or one after another, and however
-- its runs end or are cancelled, at most one run of it is under way, and the runs that end number at
-- most one, and one more for each ttl that has passed.
pub executions_bounded :
    (ttl start end : ℕ) (events : List Event) (name : Text) (critical : Bool) (timeout : ℕ)
    → 0 < ttl
    → InOrder start events end
    → (executions ttl events (idle (new_entry name critical timeout)) * ttl ≤ ttl + (end - start))
      × ((happens ttl events (idle (new_entry name critical timeout))).running ≤ 1)
executions_bounded ttl start end events name critical timeout pos order =
    events-Spent ttl end pos start events (idle (new_entry name critical timeout)) order
      (omega arith) (inl (refl, refl))
