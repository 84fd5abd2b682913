-- ===== src/Idempotency.antt =====
-- `Idempotency` of idempotency/_idempotency.py in one process, over `TTLCache` and any cache backend.
-- A response is its bytes. The lock of a key is in the process; the lock of a lock backend, which
-- guards the key among processes, the timeout of a wait and the metrics are not modelled.
pub mod Replays
pub mod Flight
mod Tests
use grelmicro.Prelude.{
  ℕ, ◌+◌, Bool, true, false, not, ◌&&◌, ◌||◌, Option, none, some, String, List, [], ◌∷◌,
  if◌then◌else◌, string_eq, ◌==◌, contains,
}
use grelmicro.Cache.Backend.{CacheBackend}
use grelmicro.Cache.Ttl
use grelmicro.Cache.Ttl.{TtlCache, value_key}
use grelmicro.Cache.Sets.{discard}
use grelmicro.Clock.{second}
use Prim.Native.String.{◌++◌ as append}

pub record Idempotency : Type 0 where
  pub name : String
  pub ttl : ℕ
  pub fingerprint : Option String

-- `_scoped`
abbrev pub scoped : Idempotency → String → String
scoped i key = append "idempotency:" (append i.name (append ":" key))

abbrev pub response_key : Idempotency → String → String
response_key i key = value_key (scoped i key)

abbrev pub fingerprint_key : Idempotency → String → String
fingerprint_key i key = append (response_key i key) "\u{1f}fp"

-- `fingerprint if fingerprint is not None else self._fingerprint`
abbrev pub fingerprint_of : Idempotency → Option String → Option String
fingerprint_of i none = i.fingerprint
fingerprint_of i (some f) = some f

-- What `_replay` finds: nothing, a response, or IdempotencyConflictError.
pub data Replay : Type 0 where
  miss conflict : Replay
  stored : String → Replay

-- How the body of a block ends: it stores a response, it stores none, or it raises.
pub data Body : Type 0 where
  returned : String → Body
  returned_none : Body
  raised : String → Body

module _ (b : CacheBackend) (i : Idempotency) where
  -- The caches, and the keys whose locks are held.
  pub record World : Type 0 where
    pub cache : TtlCache
    pub store : b.State
    pub locked : List String

  abbrev pub compared : String → String → Option String → Replay
  compared response f none = stored response
  compared response f (some saved) = if saved == f then stored response else conflict

  -- The second half of `_replay`, by what the cache has.
  abbrev pub checked : String → Option String → ℕ → Option String → b.State → Replay × b.State
  checked key f now none s = (miss, s)
  checked key none now (some response) s = (stored response, s)
  checked key (some f) now (some response) s =
      let (saved, s') = b.get (fingerprint_key i key) now s in (compared response f saved, s')

  -- `_replay`
  unfoldable pub replay : String → Option String → ℕ → World → Replay × World
  replay key f now w =
      let (found, (cache, s)) = Ttl.get b (scoped i key) now w.cache w.store in
      let (r, s') = checked key f now found s in (r, record w { cache = cache; store = s' })

  abbrev pub guard : String → Option String → ℕ → b.State → b.State
  guard key none now s = s
  guard key (some f) now s = b.set (fingerprint_key i key) f (i.ttl + second) [] now s

  -- `_persist`; none where the cache raises ValueError.
  unfoldable pub persist : String → String → Option String → ℕ → World → Option World
  persist key response f now w =
      elim (Ttl.set b (scoped i key) response (some i.ttl) [] none now now w.cache
        (guard key f now w.store)) [
          | none ↦ none
          | some (cache, s) ↦ some (record w { cache = cache; store = s })
        ]

  abbrev pub release : String → World → World
  release key w = record w { locked = discard key w.locked }

  abbrev pub after_persist : World → Option World → World
  after_persist w none = w
  after_persist w (some w') = w'

  -- `_Block.__aexit__`, whose lock is released however it ends.
  unfoldable pub leave : String → Option String → Body → ℕ → World → World
  unfolding persist
  leave key f (returned response) now w =
      release key (after_persist w (persist key response f now w))
  leave key f returned_none now w = release key w
  leave key f (raised error) now w = release key w

  -- What entering a block comes to.
  pub data Entered : Type 0 where
    replays : String → Entered
    conflicts executes waits : Entered

  abbrev pub entered : String → Replay → World → Entered × World
  entered key (stored response) w = (replays response, w)
  entered key conflict w = (conflicts, w)
  entered key miss w = (executes, record w { locked = key ∷ w.locked })

  -- `_Block.__aenter__` from the lock on: a key that is locked is waited for; otherwise the stored
  -- response is looked up again under the lock, which is kept only by an execution.
  unfoldable pub enter_locked : String → Option String → ℕ → World → Entered × World
  unfolding replay
  enter_locked key f now w =
      if contains w.locked key
      then (waits, w)
      else (let (r, w') = replay key f now w in entered key r w')

  -- `_Block.__aenter__` without a lock: waiting is what a miss goes on to.
  abbrev pub looked : Replay → Entered
  looked (stored response) = replays response
  looked conflict = conflicts
  looked miss = waits

  unfoldable pub look : String → Option String → ℕ → World → Entered × World
  unfolding replay
  look key f now w = let (r, w') = replay key f now w in (looked r, w')
