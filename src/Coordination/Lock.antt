-- ===== src/Coordination/Lock.antt =====
-- `MemoryLockAdapter` of coordination/memory.py. Where the source reads the clock twice in one
-- operation the model takes both readings.
pub mod Fencing
pub mod Holding
use grelmicro.Prelude.{
  ℕ, ◌+◌, Bool, true, false, not, ◌&&◌, ◌||◌, Option, none, some, String, ltb, leb, ◌==◌,
  if◌then◌else◌, string_eq, [],
}
use grelmicro.Dict.{Dict, lookup, insert, remove}

pub record Locks : Type 0 where
  pub locks : Dict String (Option String × ℕ)
  pub fences : Dict String ℕ

abbrev pub init : Locks
init = record { locks = []; fences = [] }

-- `self._locks.get(name, (None, 0))`
abbrev pub entry : Locks → String → Option String × ℕ
entry l name = elim (lookup name l.locks) [ none ↦ (none, 0) | some e ↦ e ]

-- `current_token == token`
abbrev pub is_token : Option String → String → Bool
is_token none token = false
is_token (some t) token = t == token

-- `current_token is None`
abbrev pub is_none : Option String → Bool
is_none none = true
is_none (some t) = false

-- The truth of `current_token`: `None` and the empty string are false.
abbrev pub is_truthy : Option String → Bool
is_truthy none = false
is_truthy (some t) = not (t == "")

-- `key_error` is the exception of `self._fences[name]` on a missing name.
pub data Acquired : Type 0 where
  fence : ℕ → Acquired
  refused key_error : Acquired

abbrev pub free : Locks → String → ℕ → Bool
free l name now = let (current, expire_at) = entry l name in is_none current || ltb expire_at now

abbrev pub bump : Locks → String → Dict String ℕ
bump l name = insert name ((elim (lookup name l.fences) [ none ↦ 0 | some n ↦ n ]) + 1) l.fences

abbrev pub fence_of : Dict String ℕ → String → Acquired
fence_of fences name = elim (lookup name fences) [ none ↦ key_error | some n ↦ fence n ]

unfoldable pub acquire : String → String → ℕ → ℕ → ℕ → Locks → Acquired × Locks
acquire name token duration now later l =
    let is_free = free l name now in
    if is_free || is_token (entry l name).0 token
    then (let fences = if is_free then bump l name else l.fences in
        (
          fence_of fences name,
          record { locks = insert name (some token, later + duration) l.locks; fences = fences },
        ))
    else (refused, l)

unfoldable pub release : String → String → ℕ → ℕ → Locks → Bool × Locks
release name token now later l =
    let (current, expire_at) = entry l name in
    if is_token current token && leb now expire_at
    then (true, record l { locks = remove name l.locks })
    else if is_truthy current && ltb expire_at later
    then (false, record l { locks = remove name l.locks })
    else (false, l)

pub locked : String → ℕ → Locks → Bool
locked name now l =
    let (current, expire_at) = entry l name in not (is_none current) && leb now expire_at

unfoldable pub owned : String → String → ℕ → Locks → Bool
owned name token now l =
    let (current, expire_at) = entry l name in is_token current token && leb now expire_at

-- `__aexit__`
pub close : Locks → Locks
close l = init
