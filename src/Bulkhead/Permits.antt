-- ===== src/Bulkhead/Permits.antt =====
-- How many scopes of a bulkhead of resilience/bulkhead.py hold a permit.
use grelmicro.Prelude.{
  ℕ, suc, ◌+◌, ◌≤◌, ◌<◌, ◌≡◌, refl, Option, none, some, List, [], ◌∷◌, nat_beq, if◌then◌else◌,
  nat_eq, arith, nat_beq_iff,
}
use grelmicro.Dict.{Dict, lookup, insert, remove, Unique, lookup-insert}
use grelmicro.Bulkhead.{Scopes, Bulkhead, pushed, value_or_zero, release, pop}

abbrev pub is_on : ℕ → Option ℕ → ℕ
is_on s none = 0
is_on s (some t) = if nat_beq s t then 1 else 0

-- The scopes of a stack, and of all tasks, that hold a permit of a semaphore.
unfoldable pub count : ℕ → List (Option ℕ) → ℕ
count s [] = 0
count s (scope ∷ stack) = is_on s scope + count s stack

unfoldable pub held : ℕ → Scopes → ℕ
unfolding count
held s [] = 0
held s ((task, stack) ∷ scopes) = count s stack + held s scopes

abbrev count_at : ℕ → Option (List (Option ℕ)) → ℕ
count_at s none = 0
count_at s (some stack) = count s stack

held-insert :
    (s task : ℕ) (stack : List (Option ℕ)) (scopes : Scopes)
    → held s (insert task stack scopes) + count_at s (lookup task scopes)
      ≡ held s scopes + count s stack
unfolding held insert lookup
held-insert s task stack [] = ground arith
held-insert s task stack ((j, other) ∷ scopes) = ground (arith, held-insert s task stack scopes)

held-remove_absent :
    (s task : ℕ) (scopes : Scopes)
    → lookup task scopes ≡ none
    → held s (remove task scopes) ≡ held s scopes
unfolding held remove lookup
held-remove_absent s task [] q = refl
held-remove_absent s task ((j, other) ∷ scopes) q =
    ground (arith, q, held-remove_absent s task scopes)

held-remove :
    (s task : ℕ) (scopes : Scopes)
    → Unique scopes
    → held s (remove task scopes) + count_at s (lookup task scopes) ≡ held s scopes
unfolding held remove lookup
held-remove s task [] u = refl
held-remove s task ((j, other) ∷ scopes) u = ground (
  arith,
  u.0,
  held-remove s task scopes u.1,
  held-remove_absent s task scopes,
  nat_beq_iff j task,
)

pub held-pushed :
    (s task : ℕ) (scope : Option ℕ) (scopes : Scopes) (o : Option (List (Option ℕ)))
    → lookup task scopes ≡ o
    → held s (insert task (pushed scope o) scopes) ≡ held s scopes + is_on s scope
unfolding count
held-pushed s task scope scopes none q = ground (arith, q, held-insert s task (scope ∷ []) scopes)
held-pushed s task scope scopes (some stack) q =
    ground (arith, q, held-insert s task (scope ∷ stack) scopes)

pub held-pop :
    (s task : ℕ) (scope : Option ℕ) (stack : List (Option ℕ)) (scopes : Scopes)
    → Unique scopes
    → lookup task scopes ≡ some (scope ∷ stack)
    → held s (pop task stack scopes) + is_on s scope ≡ held s scopes
unfolding count
held-pop s task scope [] scopes u q = ground (arith, q, held-remove s task scopes u)
held-pop s task scope (next ∷ stack) scopes u q =
    ground (arith, q, held-insert s task (next ∷ stack) scopes)

-- The permits of the current semaphore are left or held.
abbrev pub Permits : ℕ → Dict ℕ ℕ → Scopes → Option ℕ → Option ℕ → Type 0
Permits built values scopes none none = Unit
Permits built values scopes none (some n) = ⊥
Permits built values scopes (some s) none = ⊥
Permits built values scopes (some s) (some n) =
    (s < built) × (value_or_zero (lookup s values) + held s scopes ≡ n)

pub record IsValid (b : Bulkhead) : Type 0 where
  pub unique : Unique b.scopes
  pub fresh : (s : ℕ) → b.built ≤ s → held s b.scopes ≡ 0
  pub permits : Permits b.built b.values b.scopes b.semaphore b.max_concurrent

pub acquire-Permits :
    (built task s v : ℕ) (values : Dict ℕ ℕ) (scopes : Scopes) (semaphore max_concurrent : Option ℕ)
    → semaphore ≡ some s
    → lookup s values ≡ some (suc v)
    → Permits built values scopes semaphore max_concurrent
    → (s < built)
      × Permits built
          (insert s v values)
          (insert task (pushed (some s) (lookup task scopes)) scopes)
          semaphore
          max_concurrent
acquire-Permits built task s v values scopes none none e q p = ground (arith, e)
acquire-Permits built task s v values scopes none (some n) e q p = elim p [ ]
acquire-Permits built task s v values scopes (some t) none e q p = elim p [ ]
acquire-Permits built task s v values scopes (some t) (some n) e q p =
    let more : held t (insert task (pushed (some s) (lookup task scopes)) scopes)
        ≡ held t scopes + is_on t (some s) =
      held-pushed t task (some s) scopes (lookup task scopes) refl in
    ground (arith, e, q, p, more, lookup-insert s t v values, nat_beq_iff s t, nat_beq_iff t s)

pub release-Permits :
    (built task : ℕ) (scope : Option ℕ) (stack : List (Option ℕ)) (b : Bulkhead)
    (semaphore max_concurrent : Option ℕ)
    → Unique b.scopes
    → lookup task b.scopes ≡ some (scope ∷ stack)
    → Permits built b.values b.scopes semaphore max_concurrent
    → Permits built
        (release scope (record b { scopes = pop task stack b.scopes })).values
        (pop task stack b.scopes)
        semaphore
        max_concurrent
release-Permits built task scope stack b none none u q p = tt
release-Permits built task scope stack b none (some n) u q p = p
release-Permits built task scope stack b (some t) none u q p = p
release-Permits built task none stack b (some t) (some n) u q p =
    ground (arith, p, held-pop t task none stack b.scopes u q)
release-Permits built task (some s) stack b (some t) (some n) u q p = ground (
  arith,
  p,
  held-pop t task (some s) stack b.scopes u q,
  lookup-insert s t (value_or_zero (lookup s b.values) + 1) b.values,
  nat_beq_iff s t,
  nat_beq_iff t s,
)
