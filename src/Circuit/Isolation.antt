-- ===== src/Circuit/Isolation.antt =====
-- Breakers of different names over the store that they share; each new entry makes `_cull` delete
-- other breakers' entries.
use grelmicro.Prelude.{
  ℕ, ◌+◌, ◌≡◌, ◌≢◌, refl, none, some, String, [], ◌∷◌, arith, string_eq, eq_iff,
}
use grelmicro.Dict.{
  lookup, insert, remove, lookup-insert, lookup-remove, Unique, insert-Unique, remove-Unique,
}
use grelmicro.Circuit.{
  closed, Breaker, Strategy, States, fresh, live, try_acquire, record_outcome, transition,
  cull_from,
}
use grelmicro.Circuit.Observe.{Operation, force, exec, shown, observe}

-- Every entry of `items` is in the store as it stands, or is gone.
abbrev Within : States → States → Type 0
Within items states =
    (j : String) → (b : Breaker) → lookup j items ≡ some b → lookup j states ≡ some b

module _ (own j : String) (now : ℕ) where
  cull_from-Unique :
      (n : ℕ) (items states : States) → Unique states → Unique (cull_from own now n items states)
  unfolding cull_from
  cull_from-Unique n [] states u = u
  cull_from-Unique n ((name, b) ∷ items) states u = ground (
    arith,
    cull_from-Unique (n + 1) items (remove name states) (remove-Unique name states u),
    cull_from-Unique n items states u,
  )

  Within-tail :
      (name : String) (b : Breaker) (items states : States)
      → lookup name items ≡ none
      → Within ((name, b) ∷ items) states
      → Within items states
  unfolding lookup
  Within-tail name b items states new w i c h = ground (arith, w i c, eq_iff name i)

  Within-remove :
      (name : String) (items states : States)
      → lookup name items ≡ none
      → Within items states
      → Within items (remove name states)
  Within-remove name items states new w i c h =
      ground (arith, w i c h, lookup-remove name i states, eq_iff name i)

  cull_from-shown :
      (n : ℕ) (items states : States)
      → Unique items
      → Within items states
      → shown now (lookup j (cull_from own now n items states)) ≡ shown now (lookup j states)
  unfolding cull_from lookup
  cull_from-shown n [] states u w = refl
  cull_from-shown n ((name, b) ∷ items) states (new, u) w =
      let tail = Within-tail name b items states new w in
      ground (
        arith,
        cull_from-shown (n + 1) items (remove name states) u
            (Within-remove name items states new tail),
        cull_from-shown n items states u tail,
        lookup-remove name j states,
        eq_iff name j,
        eq_iff name name,
        w name b,
      )

module _ (s : Strategy) (j : String) (now : ℕ) (states : States) where
  live-shown :
      j ≢ s.name
      → Unique states
      → shown now (lookup j (live s now states).1) ≡ shown now (lookup j states)
  unfolding live
  live-shown other u =
      let fresh_states = insert s.name (fresh now) states in
      ground (
        arith,
        cull_from-shown s.name j now 0 fresh_states fresh_states
            (insert-Unique s.name (fresh now) states u) (λ i b h. h),
        lookup-insert s.name j (fresh now) states,
        eq_iff s.name j,
      )

  live-Unique : Unique states → Unique (live s now states).1
  unfolding live
  live-Unique u =
      let fresh_states = insert s.name (fresh now) states in
      ground (
        arith,
        cull_from-Unique s.name j now 0 fresh_states fresh_states
            (insert-Unique s.name (fresh now) states u),
      )

module _ (s : Strategy) (j : String) (now : ℕ) (states : States) (other : j ≢ s.name) where
  insert-shown :
      (b : Breaker) (base : States)
      → shown now (lookup j (insert s.name b base)) ≡ shown now (lookup j base)
  insert-shown b base = ground (arith, lookup-insert s.name j b base, eq_iff s.name j)

  remove-shown :
      (base : States) → shown now (lookup j (remove s.name base)) ≡ shown now (lookup j base)
  remove-shown base = ground (arith, lookup-remove s.name j base, eq_iff s.name j)

  shown-exec :
      (op : Operation)
      → Unique states
      → shown now (lookup j (exec s now op states).1) ≡ shown now (lookup j states)
  unfolding exec try_acquire record_outcome transition
  shown-exec (force closed cool_down) u = grind (arith, remove-shown)
  shown-exec _ u = grind (arith, insert-shown, remove-shown, live-shown s j now states other u)

  exec-Unique : (op : Operation) → Unique states → Unique (exec s now op states).1
  unfolding exec try_acquire record_outcome transition
  exec-Unique (force closed cool_down) u = remove-Unique s.name states u
  exec-Unique _ u = grind (arith, insert-Unique, remove-Unique, live-Unique s j now states u)

  -- No operation on one breaker changes the circuit observed under another name, in a store that
  -- holds each name once; and the store still does.
  pub observe-exec_ne :
      (op : Operation)
      → Unique states
      → (observe j now (exec s now op states).1 ≡ observe j now states)
        × Unique (exec s now op states).1
  unfolding observe
  observe-exec_ne op u = (shown-exec op u, exec-Unique op u)
