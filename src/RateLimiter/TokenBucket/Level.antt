-- ===== src/RateLimiter/TokenBucket/Level.antt =====
-- What the token buckets of resilience/ratelimiter/memory.py hold after each operation, and when one
-- is evicted.
use grelmicro.Prelude.{
  ℕ, ◌+◌, ◌-◌, ◌*◌, ◌≤◌, ◌≡◌, ◌∙◌, ap, refl, min, Bool, true, false, Option, none, some, String, [],
  ◌∷◌, leb, arith, if◌then◌else◌, string_eq, ◌==◌, eq_iff, length, contains, Bool-cases, inl, inr,
}
use grelmicro.Dict.{
  lookup, insert, Unique, insert-Unique, lookup-insert, lookup-remove_all, remove_all-Unique,
}
use grelmicro.RateLimiter.{eviction_threshold}
use grelmicro.RateLimiter.TokenBucket.{
  TokenBucketConfig, State, refill, refilled, full_keys, maybe_evict, acquire,
}
use native.Mathlib.Nat.{add-mul}

-- A bucket was counted at the time or before.
abbrev pub Past : ℕ → Option (ℕ × ℕ) → Type 0
Past now none = Unit
Past now (some (tokens, last)) = last ≤ now

pub record IsValid (now : ℕ) (state : State) : Type 0 where
  pub unique : Unique state
  pub past : (k : String) → Past now (lookup k state)

pub lapse : (a b c r : ℕ) → a ≤ b → b ≤ c → (c - a) * r ≡ (b - a) * r + (c - b) * r
lapse a b c r p q =
    let e : c - a ≡ (b - a) + (c - b) = omega arith in ap (λ x. x * r) e ∙ add-mul (b - a) (c - b) r

pub none_lapsed : (a r : ℕ) → (a - a) * r ≡ 0
none_lapsed a r = let e : a - a ≡ 0 = omega arith in ap (λ x. x * r) e ∙ omega arith

module _ (c : TokenBucketConfig) where
  pub refilled_later :
      (now later : ℕ) (bucket : Option (ℕ × ℕ))
      → Past now bucket
      → now ≤ later
      → refilled c later bucket
        ≡ min c.capacity (refilled c now bucket + (later - now) * c.refill_rate)
  refilled_later now later none p le =
      omega (arith, none_lapsed now c.refill_rate, none_lapsed later c.refill_rate)
  refilled_later now later (some (tokens, last)) p le =
      omega (arith, lapse last now later c.refill_rate p le)

  abbrev is_full : ℕ → Option (ℕ × ℕ) → Bool
  is_full now none = false
  is_full now (some (tokens, last)) = leb c.capacity (refill c tokens last now)

  contains-full_keys :
      (now : ℕ) (state : State) (j : String)
      → Unique state
      → contains (full_keys c now state) j ≡ is_full now (lookup j state)
  unfolding full_keys contains lookup
  contains-full_keys now [] j u = refl
  contains-full_keys now ((k, (tokens, last)) ∷ state) j u =
      ground (arith, contains-full_keys now state j u.1, eq_iff k j)

  refilled-full :
      (now later : ℕ) (bucket : Option (ℕ × ℕ))
      → Past now bucket
      → now ≤ later
      → is_full now bucket ≡ true
      → refilled c later bucket ≡ c.capacity
  refilled-full now later none p le f = ground arith
  refilled-full now later (some (tokens, last)) p le f =
      ground (arith, lapse last now later c.refill_rate p le)

  pub refilled-fresh : (now : ℕ) → refilled c now none ≡ c.capacity
  refilled-fresh now = omega arith

  -- Eviction is not seen: every key's bucket holds what it held, at every later time.
  pub refilled-maybe_evict :
      (now later : ℕ) (state : State) (j : String)
      → IsValid now state
      → now ≤ later
      → refilled c later (lookup j (maybe_evict c now state)) ≡ refilled c later (lookup j state)
  unfolding maybe_evict
  refilled-maybe_evict now later state j v le = ground (
    arith,
    lookup-remove_all (full_keys c now state) j state,
    contains-full_keys now state j v.unique,
    refilled-full now later (lookup j state) (v.past j) le,
    refilled-fresh later,
  )

  maybe_evict-IsValid :
      (now : ℕ) (state : State) → IsValid now state → IsValid now (maybe_evict c now state)
  unfolding maybe_evict
  maybe_evict-IsValid now state v = elim (Bool-cases (leb (length state) eviction_threshold)) [
    | inl t ↦ rw t v
    | inr f ↦ rw f (record {
      unique = remove_all-Unique (full_keys c now state) state v.unique;
      past = λ k. elim (Bool-cases (contains (full_keys c now state) k)) [
        | inl t ↦ rw (lookup-remove_all (full_keys c now state) k state, t) tt
        | inr f ↦ rw (lookup-remove_all (full_keys c now state) k state, f) (v.past k)
      ];
    })
  ]

  Past-later :
      (now later : ℕ) (bucket : Option (ℕ × ℕ)) → now ≤ later → Past now bucket → Past later bucket
  Past-later now later none le p = tt
  Past-later now later (some (tokens, last)) le p = omega arith

  pub IsValid-later :
      (now later : ℕ) (state : State) → now ≤ later → IsValid now state → IsValid later state
  IsValid-later now later state le v = record {
    unique = v.unique;
    past = λ k. Past-later now later (lookup k state) le (v.past k);
  }

  insert-IsValid :
      (key : String) (tokens now : ℕ) (state : State)
      → IsValid now state
      → IsValid now (insert key (tokens, now) state)
  insert-IsValid key tokens now state v = record {
    unique = insert-Unique key (tokens, now) state v.unique;
    past = λ k. ground (arith, lookup-insert key k (tokens, now) state, v.past k);
  }

  put-IsValid :
      (key : String) (tokens now : ℕ) (state : State)
      → IsValid now state
      → IsValid now (maybe_evict c now (insert key (tokens, now) state))
  put-IsValid key tokens now state v =
      maybe_evict-IsValid now (insert key (tokens, now) state)
        (insert-IsValid key tokens now state v)

  refilled-put :
      (key j : String) (tokens now later : ℕ) (state : State)
      → IsValid now state
      → now ≤ later
      → refilled c later (lookup j (maybe_evict c now (insert key (tokens, now) state))) ≡ (
          if key == j
          then min c.capacity (tokens + (later - now) * c.refill_rate)
          else refilled c later (lookup j state))
  refilled-put key j tokens now later state v le = ground (
    arith,
    refilled-maybe_evict now later (insert key (tokens, now) state) j
        (insert-IsValid key tokens now state v) le,
    lookup-insert key j (tokens, now) state,
  )

  -- An acquisition keeps the state well formed.
  pub acquire-IsValid :
      (key : String) (cost now : ℕ) (state : State)
      → IsValid now state
      → IsValid now (acquire c key cost now state).1
  unfolding acquire
  acquire-IsValid key cost now state v =
      let tokens = refilled c now (lookup key state) in
      elim (Bool-cases (leb (cost * c.token) tokens)) [
        | inl t ↦ rw t (put-IsValid key (tokens - cost * c.token) now state v)
        | inr f ↦ rw f (put-IsValid key tokens now state v)
      ]

  -- The tokens an acquisition takes from its bucket.
  abbrev pub taken : ℕ → ℕ → ℕ
  taken cost tokens = if leb (cost * c.token) tokens then cost * c.token else 0

  -- In a well-formed state, an acquisition is allowed exactly when its key's bucket holds the cost. It
  -- then takes the cost, and nothing where it is refused. Every other key's bucket is left alone, and
  -- each bucket goes on refilling to its capacity, whatever is evicted.
  pub refilled-acquire :
      (key j : String) (cost now later : ℕ) (state : State)
      → IsValid now state
      → now ≤ later
      → ((acquire c key cost now state).0.allowed
          ≡ leb (cost * c.token) (refilled c now (lookup key state)))
        × (refilled c later (lookup j (acquire c key cost now state).1) ≡ (
            if key == j
            then (let tokens = refilled c now (lookup key state) in
                min c.capacity ((tokens - taken cost tokens) + (later - now) * c.refill_rate))
            else refilled c later (lookup j state)))
  unfolding acquire
  refilled-acquire key j cost now later state v le =
      let tokens = refilled c now (lookup key state) in
      ground (
        arith,
        refilled-put key j (tokens - cost * c.token) now later state v le,
        refilled-put key j tokens now later state v le,
      )
