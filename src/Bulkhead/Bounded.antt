-- ===== src/Bulkhead/Bounded.antt =====
-- What a bulkhead of resilience/bulkhead.py admits.
use grelmicro.Prelude.{
  ℕ, zero, suc, ◌≤◌, ◌<◌, ◌≡◌, ◌↔◌, refl, Option, none, some, List, [], ◌∷◌, arith, nat_eq,
  nat_beq_iff,
}
use grelmicro.Dict.{Dict, lookup, insert, Unique, insert-Unique, remove-Unique, lookup-insert_self}
use grelmicro.Bulkhead.{
  Scopes, Bulkhead, build_semaphore, init, no_semaphore, apply_reconfigure, pushed, push, acquire,
  enter, release, pop, exit_stack, exit,
}
use grelmicro.Bulkhead.Permits.{
  held, Permits, IsValid, held-pushed, held-pop, acquire-Permits, release-Permits,
}

-- A task enters or leaves a scope, or the configuration is replaced.
pub data Op : Type 0 where
  enters exits : ℕ → Op
  reconfigures : Option ℕ → Op

-- An error leaves the bulkhead as it is.
abbrev pub after : Bulkhead → Option Bulkhead → Bulkhead
after b none = b
after b (some b') = b'

unfoldable pub plays : List Op → Bulkhead → Bulkhead
unfolding enter exit build_semaphore
plays [] b = b
plays (enters task ∷ ops) b = plays ops (after b (enter task b))
plays (exits task ∷ ops) b = plays ops (after b (exit task b))
plays (reconfigures n ∷ ops) b = plays ops (apply_reconfigure n b)

build-IsValid :
    (n : Option ℕ) (b : Bulkhead)
    → Unique b.scopes
    → ((s : ℕ) → b.built ≤ s → held s b.scopes ≡ 0)
    → IsValid (build_semaphore n b)
unfolding build_semaphore
build-IsValid none b u f = record { unique = u; fresh = f; permits = tt }
build-IsValid (some n) b u f = record {
  unique = u;
  fresh = λ s le. f s (omega (arith, le));
  permits =
      (omega arith, ground (arith, lookup-insert_self b.built n b.values, f b.built (omega arith)));
}

acquire-IsValid :
    (task s : ℕ) (b : Bulkhead) (o : Option ℕ)
    → b.semaphore ≡ some s
    → lookup s b.values ≡ o
    → IsValid b
    → IsValid (after b (acquire task s o b))
acquire-IsValid task s b none e q v = v
acquire-IsValid task s b (some zero) e q v = v
acquire-IsValid task s b (some (suc left)) e q v =
    let stack : List (Option ℕ) = pushed (some s) (lookup task b.scopes) in
    let p : (s < b.built)
        × Permits b.built (insert s left b.values) (insert task stack b.scopes) b.semaphore
            b.max_concurrent =
      acquire-Permits b.built task s left b.values b.scopes b.semaphore b.max_concurrent e q
        v.permits in
    record {
      unique = insert-Unique task stack b.scopes v.unique;
      fresh = λ t le. ground (
        arith,
        p.0,
        v.fresh t le,
        held-pushed t task (some s) b.scopes (lookup task b.scopes) refl,
        nat_beq_iff t s,
      );
      permits = p.1;
    }

free-Permits :
    (task built : ℕ) (values : Dict ℕ ℕ) (scopes : Scopes) (semaphore max_concurrent : Option ℕ)
    → semaphore ≡ none
    → Permits built values scopes semaphore max_concurrent
    → Permits built values
        (insert task (pushed none (lookup task scopes)) scopes)
        semaphore
        max_concurrent
free-Permits task built values scopes none none e p = tt
free-Permits task built values scopes none (some n) e p = p
free-Permits task built values scopes (some s) max_concurrent e p = ground (arith, e)

enter-IsValid :
    (task : ℕ) (b : Bulkhead) (o : Option ℕ)
    → b.semaphore ≡ o
    → IsValid b
    → IsValid (after b (enter task b))
unfolding enter
enter-IsValid task b none e v =
    let free : enter task b ≡ some (push task none b) = ground (arith, e) in
    rw free (record {
      unique = insert-Unique task (pushed none (lookup task b.scopes)) b.scopes v.unique;
      fresh = λ t le.
          ground
            (arith, v.fresh t le, held-pushed t task none b.scopes (lookup task b.scopes) refl);
      permits =
          free-Permits task b.built b.values b.scopes b.semaphore b.max_concurrent e v.permits;
    })
enter-IsValid task b (some s) e v =
    let asks : enter task b ≡ acquire task s (lookup s b.values) b = ground (arith, e) in
    rw asks (acquire-IsValid task s b (lookup s b.values) e refl v)

pop-Unique :
    (task : ℕ) (stack : List (Option ℕ)) (scopes : Scopes)
    → Unique scopes
    → Unique (pop task stack scopes)
pop-Unique task [] scopes u = remove-Unique task scopes u
pop-Unique task (scope ∷ stack) scopes u = insert-Unique task (scope ∷ stack) scopes u

release-IsValid :
    (task : ℕ) (scope : Option ℕ) (stack : List (Option ℕ)) (b : Bulkhead)
    → lookup task b.scopes ≡ some (scope ∷ stack)
    → IsValid b
    → IsValid (release scope (record b { scopes = pop task stack b.scopes }))
release-IsValid task none stack b q v = record {
  unique = pop-Unique task stack b.scopes v.unique;
  fresh = λ t le. ground (arith, v.fresh t le, held-pop t task none stack b.scopes v.unique q);
  permits =
      release-Permits b.built task none stack b b.semaphore b.max_concurrent v.unique q v.permits;
}
release-IsValid task (some s) stack b q v = record {
  unique = pop-Unique task stack b.scopes v.unique;
  fresh = λ t le. ground (arith, v.fresh t le, held-pop t task (some s) stack b.scopes v.unique q);
  permits =
      release-Permits b.built task (some s) stack b b.semaphore b.max_concurrent v.unique q
        v.permits;
}

exit_stack-IsValid :
    (task : ℕ) (b : Bulkhead) (o : Option (List (Option ℕ)))
    → lookup task b.scopes ≡ o
    → IsValid b
    → IsValid (after b (exit_stack task o b))
exit_stack-IsValid task b none q v = v
exit_stack-IsValid task b (some []) q v = v
exit_stack-IsValid task b (some (scope ∷ stack)) q v = release-IsValid task scope stack b q v

plays-IsValid : (ops : List Op) (b : Bulkhead) → IsValid b → IsValid (plays ops b)
unfolding plays exit
plays-IsValid [] b v = v
plays-IsValid (enters task ∷ ops) b v =
    plays-IsValid ops (after b (enter task b)) (enter-IsValid task b b.semaphore refl v)
plays-IsValid (exits task ∷ ops) b v =
    plays-IsValid ops (after b (exit task b))
      (exit_stack-IsValid task b (lookup task b.scopes) refl v)
plays-IsValid (reconfigures n ∷ ops) b v =
    plays-IsValid ops (apply_reconfigure n b) (build-IsValid n b v.unique v.fresh)

full :
    (task s limit : ℕ) (b : Bulkhead) (semaphore max_concurrent left : Option ℕ)
    → b.semaphore ≡ semaphore
    → semaphore ≡ some s
    → max_concurrent ≡ some limit
    → lookup s b.values ≡ left
    → Permits b.built b.values b.scopes semaphore max_concurrent
    → (held s b.scopes ≤ limit) × ((enter task b ≡ none) ↔ (held s b.scopes ≡ limit))
unfolding enter
full task s limit b none max_concurrent left q e m l p = ground (arith, e)
full task s limit b (some t) none left q e m l p = elim p [ ]
full task s limit b (some t) (some n) none q e m l p = ground (arith, q, e, m, l, p)
full task s limit b (some t) (some n) (some zero) q e m l p = ground (arith, q, e, m, l, p)
full task s limit b (some t) (some n) (some (suc v)) q e m l p = ground (arith, q, e, m, l, p)

-- A bulkhead refuses a task exactly when as many scopes as its limit hold a permit, whatever the tasks
-- have entered and left, and however often it has been reconfigured; and at no time do more hold one.
-- The scopes that were entered before the last reconfiguration are not counted.
pub enter_full :
    (n : Option ℕ) (ops : List Op) (task s limit : ℕ)
    → (plays ops (init n)).semaphore ≡ some s
    → (plays ops (init n)).max_concurrent ≡ some limit
    → (held s (plays ops (init n)).scopes ≤ limit)
      × ((enter task (plays ops (init n)) ≡ none) ↔ (held s (plays ops (init n)).scopes ≡ limit))
unfolding held init build_semaphore
enter_full n ops task s limit e m =
    let b : Bulkhead = plays ops (init n) in
    let v : IsValid b =
      plays-IsValid ops (init n) (build-IsValid n no_semaphore tt (λ t le. refl)) in
    full task s limit b b.semaphore b.max_concurrent (lookup s b.values) refl e m refl v.permits
