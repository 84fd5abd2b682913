-- ===== src/RateLimiter/SlidingWindow/Enforce.antt =====
-- What the sliding window of resilience/ratelimiter/memory.py lets through.
use grelmicro.Prelude.{
  ℕ, le_refl, ◌+◌, ◌-◌, ◌*◌, ◌≤◌, ◌≡◌, refl, max, Bool, true, false, ◌&&◌, Option, none, some,
  String, [], ◌∷◌, leb, ltb, arith, if◌then◌else◌, string_eq, ◌==◌, eq_iff, length, contains,
  Bool-cases, inl, inr,
}
use grelmicro.Dict.{
  lookup, Unique, insert-Unique, lookup-insert, lookup-remove_all, remove_all-Unique,
}
use grelmicro.RateLimiter.{eviction_threshold}
use grelmicro.RateLimiter.SlidingWindow.{
  SlidingWindowConfig, State, window, past_keys, maybe_evict, arrival, is_over, acquire,
}

-- The time from which a key's next request is spaced.
abbrev pub due : ℕ → Option ℕ → ℕ
due now tat = max (arrival now tat) now

module _ (c : SlidingWindowConfig) where
  abbrev is_past : ℕ → Option ℕ → Bool
  is_past now none = false
  is_past now (some tat) = ltb tat now

  contains-past_keys :
      (now : ℕ) (state : State) (j : String)
      → Unique state
      → contains (past_keys c now state) j ≡ is_past now (lookup j state)
  unfolding past_keys contains lookup
  contains-past_keys now [] j u = refl
  contains-past_keys now ((k, tat) ∷ state) j u =
      ground (arith, contains-past_keys now state j u.1, eq_iff k j)

  due-past :
      (now later : ℕ) (tat : Option ℕ)
      → now ≤ later
      → is_past now tat ≡ true
      → due later tat ≡ later
  due-past now later none le p = omega arith
  due-past now later (some tat) le p = ground arith

  pub due-none : (now : ℕ) → due now none ≡ now
  due-none now = omega arith

  due-maybe_evict :
      (now later : ℕ) (state : State) (j : String)
      → Unique state
      → now ≤ later
      → due later (lookup j (maybe_evict c now state)) ≡ due later (lookup j state)
  unfolding maybe_evict
  due-maybe_evict now later state j u le = ground (
    arith,
    lookup-remove_all (past_keys c now state) j state,
    contains-past_keys now state j u,
    due-past now later (lookup j state) le,
    due-none later,
  )

  maybe_evict-Unique : (now : ℕ) (state : State) → Unique state → Unique (maybe_evict c now state)
  unfolding maybe_evict
  maybe_evict-Unique now state u = elim (Bool-cases (leb (length state) eviction_threshold)) [
    | inl t ↦ rw t u
    | inr f ↦ rw f (remove_all-Unique (past_keys c now state) state u)
  ]

  -- The arrival time that a request asks for.
  abbrev pub asked : String → ℕ → ℕ → State → ℕ
  asked key cost now state = due now (lookup key state) + c.emission_interval * cost

  asked-maybe_evict :
      (key : String) (cost now : ℕ) (state : State)
      → Unique state
      → max (arrival now (lookup key (maybe_evict c now state))) now + c.emission_interval * cost
        ≡ asked key cost now state
  asked-maybe_evict key cost now state u =
      omega (arith, due-maybe_evict now now state key u le_refl)

  pub acquire-Unique :
      (key : String) (cost now : ℕ) (state : State)
      → Unique state
      → Unique (acquire c key cost now state).1
  unfolding acquire
  acquire-Unique key cost now state u =
      let state' = maybe_evict c now state in
      let u' = maybe_evict-Unique now state u in
      let new_tat = max (arrival now (lookup key state')) now + c.emission_interval * cost in
      elim (Bool-cases (is_over c new_tat now)) [
        | inl t ↦ rw t u'
        | inr f ↦ rw f (insert-Unique key new_tat state' u')
      ]

  -- A request is allowed exactly when its key's arrival time, moved on by its cost, is at most the
  -- window and half an emission interval ahead. It then moves that key's arrival time, a refused one
  -- moves nothing, and no other key's arrival time changes, whatever is evicted.
  pub due-acquire :
      (key j : String) (cost now later : ℕ) (state : State)
      → Unique state
      → now ≤ later
      → ((acquire c key cost now state).0.allowed
          ≡ leb (2 * asked key cost now state) (2 * (now + window c) + c.emission_interval))
        × (due later (lookup j (acquire c key cost now state).1) ≡ (
            if key == j && (acquire c key cost now state).0.allowed
            then max (asked key cost now state) later
            else due later (lookup j state)))
  unfolding acquire
  due-acquire key j cost now later state u le =
      let state' = maybe_evict c now state in
      let new_tat = max (arrival now (lookup key state')) now + c.emission_interval * cost in
      ground (
        arith,
        due-maybe_evict now later state j u le,
        asked-maybe_evict key cost now state u,
        lookup-insert key j new_tat state',
        eq_iff key j,
      )

  pub due_later :
      (now later : ℕ) (tat : Option ℕ) → now ≤ later → due later tat ≡ max (due now tat) later
  due_later now later none le = omega arith
  due_later now later (some tat) le = omega arith

  retry_after-eq :
      (key : String) (cost now : ℕ) (state : State)
      → Unique state
      → (acquire c key cost now state).0.allowed ≡ false
      → (acquire c key cost now state).0.retry_after ≡ asked key cost now state - (now + window c)
  unfolding acquire
  retry_after-eq key cost now state u r = ground (arith, asked-maybe_evict key cost now state u)

  -- Where a cost within the limit is refused, the same call is allowed once its `retry_after` has
  -- passed, if no other call comes between.
  pub retry_after_enough :
      (key : String) (cost now later : ℕ) (state : State)
      → Unique state
      → c.emission_interval * cost ≤ window c
      → (acquire c key cost now state).0.allowed ≡ false
      → now + (acquire c key cost now state).0.retry_after ≤ later
      → (acquire c key cost later (acquire c key cost now state).1).0.allowed ≡ true
  retry_after_enough key cost now later state u fits r le =
      let state' = (acquire c key cost now state).1 in
      let n : now ≤ later = omega arith in
      ground (
        arith,
        due-acquire key key cost now later state u n,
        due-acquire key key cost later later state' (acquire-Unique key cost now state u) le_refl,
        retry_after-eq key cost now state u r,
        due_later now later (lookup key state) n,
      )
