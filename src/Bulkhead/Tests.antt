-- ===== src/Bulkhead/Tests.antt =====
-- The runs and the witness of the bulkhead of resilience/bulkhead.py.
use grelmicro.Prelude.{◌≤◌, ◌≡◌, ◌↔◌, refl, none, some, List, [], ◌∷◌, nat_eq}
use grelmicro.Dict.{lookup, insert, remove}
use grelmicro.Bulkhead.{build_semaphore, init, enter, exit}
use grelmicro.Bulkhead.Permits.{count, held}
use grelmicro.Bulkhead.Bounded.{Op, enters, exits, reconfigures, plays, enter_full}

-- The first task enters two scopes and leaves one, the second one enters.
abbrev two_tasks : List Op
two_tasks = enters 1 ∷ enters 1 ∷ exits 1 ∷ enters 2 ∷ enters 3 ∷ []

two_held : held 0 (plays two_tasks (init (some 2))).scopes ≡ 2
unfolding plays enter exit init build_semaphore held count lookup insert remove
two_held = refl

enter_full_example :
    (held 0 (plays two_tasks (init (some 2))).scopes ≤ 2)
    × ((enter 3 (plays two_tasks (init (some 2))) ≡ none)
        ↔ (held 0 (plays two_tasks (init (some 2))).scopes ≡ 2))
unfolding plays enter exit init build_semaphore lookup insert remove
enter_full_example = enter_full (some 2) two_tasks 3 0 2 refl refl

-- A reconfiguration that keeps `max_concurrent` also builds a new semaphore, so that two scopes are
-- open where one is the limit.
abbrev same_limit : List Op
same_limit = enters 1 ∷ reconfigures (some 1) ∷ enters 2 ∷ []

over_limit : (plays same_limit (init (some 1))).scopes ≡ (1, some 0 ∷ []) ∷ (2, some 1 ∷ []) ∷ []
unfolding plays enter init build_semaphore lookup insert
over_limit = refl
