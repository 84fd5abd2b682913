-- ===== src/Bulkhead.antt =====
-- `Bulkhead` of resilience/bulkhead.py: the permits, the scopes of the tasks, and the replacement of the
-- semaphore by a reconfiguration. A semaphore is a number, with the permits that it has left.
pub mod Permits
pub mod Bounded
mod Tests
use grelmicro.Prelude.{
  ℕ, zero, suc, ◌+◌, Bool, true, false, Option, none, some, List, [], ◌∷◌, nat_beq, if◌then◌else◌,
  nat_eq,
}
use grelmicro.Dict.{Dict, lookup, insert, remove}

-- `_scopes` has for each task the semaphores of its scopes, the innermost first.
abbrev pub Scopes : Type 0
Scopes = Dict ℕ (List (Option ℕ))

pub record Bulkhead : Type 0 where
  pub max_concurrent : Option ℕ
  pub semaphore : Option ℕ
  pub values : Dict ℕ ℕ
  pub scopes : Scopes
  pub built : ℕ

-- `_build_semaphore`, and the state that has it.
unfoldable pub build_semaphore : Option ℕ → Bulkhead → Bulkhead
build_semaphore none b = record b { max_concurrent = none; semaphore = none }
build_semaphore (some n) b = record b {
  max_concurrent = some n;
  semaphore = some b.built;
  values = insert b.built n b.values;
  built = b.built + 1;
}

abbrev pub no_semaphore : Bulkhead
no_semaphore = record {
  max_concurrent = none;
  semaphore = none;
  values = [];
  scopes = [];
  built = 0;
}

abbrev pub init : Option ℕ → Bulkhead
unfolding build_semaphore
init n = build_semaphore n no_semaphore

-- `_apply_reconfigure`
abbrev pub apply_reconfigure : Option ℕ → Bulkhead → Bulkhead
unfolding build_semaphore
apply_reconfigure n b = build_semaphore n b

-- The stack of a task, with one scope more.
abbrev pub pushed : Option ℕ → Option (List (Option ℕ)) → List (Option ℕ)
pushed scope none = scope ∷ []
pushed scope (some stack) = scope ∷ stack

abbrev pub push : ℕ → Option ℕ → Bulkhead → Bulkhead
push task scope b = record b { scopes = insert task (pushed scope (lookup task b.scopes)) b.scopes }

-- `semaphore.acquire()`, where the wait has ended: none is its timeout.
abbrev pub acquire : ℕ → ℕ → Option ℕ → Bulkhead → Option Bulkhead
acquire task s none b = none
acquire task s (some zero) b = none
acquire task s (some (suc v)) b =
    some (push task (some s) (record b { values = insert s v b.values }))

-- `__aenter__`: none is BulkheadFullError.
unfoldable pub enter : ℕ → Bulkhead → Option Bulkhead
enter task b = elim b.semaphore [
  | none ↦ some (push task none b)
  | some s ↦ acquire task s (lookup s b.values) b
]

abbrev pub value_or_zero : Option ℕ → ℕ
value_or_zero none = 0
value_or_zero (some v) = v

abbrev pub release : Option ℕ → Bulkhead → Bulkhead
release none b = b
release (some s) b = record b { values = insert s (value_or_zero (lookup s b.values) + 1) b.values }

-- The scopes of a task without the innermost one, which is not its last.
abbrev pub pop : ℕ → List (Option ℕ) → Scopes → Scopes
pop task [] scopes = remove task scopes
pop task (scope ∷ stack) scopes = insert task (scope ∷ stack) scopes

-- `__aexit__`, on the stack of the task: none is the error of a task that has no scope.
abbrev pub exit_stack : ℕ → Option (List (Option ℕ)) → Bulkhead → Option Bulkhead
exit_stack task none b = none
exit_stack task (some []) b = none
exit_stack task (some (scope ∷ stack)) b =
    some (release scope (record b { scopes = pop task stack b.scopes }))

unfoldable pub exit : ℕ → Bulkhead → Option Bulkhead
exit task b = exit_stack task (lookup task b.scopes) b
