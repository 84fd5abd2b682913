-- ===== src/Coordination/Lock/Holding.antt =====
-- Mutual exclusion: what a lease of `MemoryLockAdapter` is worth.
use grelmicro.Prelude.{
  ℕ, ◌+◌, ◌≤◌, ◌≡◌, ◌≢◌, true, false, some, String, List, [], ◌∷◌, arith, string_eq, eq_iff,
}
use grelmicro.Dict.{lookup, lookup-insert, lookup-remove, lookup-insert_self}
use grelmicro.Coordination.Lock
use grelmicro.Coordination.Lock.{Locks, entry, Acquired, fence, refused, owned, locked}
use grelmicro.Coordination.Lock.Fencing.{Call, acquire, release, after, run}

-- A call that another token makes while the lease runs, or that is about another lock.
abbrev pub IsForeign : String → String → ℕ → Call → Type 0
IsForeign name token end (acquire other t duration now later) = (t ≢ token) × (now ≤ end)
IsForeign name token end (release other t now later) = (t ≢ token) × (later ≤ end)

abbrev pub AllForeign : String → String → ℕ → List Call → Type 0
AllForeign name token end [] = Unit
AllForeign name token end (c ∷ calls) = IsForeign name token end c × AllForeign name token end calls

module _ (name token : String) (end : ℕ) where
  after_foreign :
      (c : Call) (l : Locks)
      → lookup name l.locks ≡ some (some token, end)
      → IsForeign name token end c
      → lookup name (after c l).locks ≡ some (some token, end)
  unfolding after Lock.acquire Lock.release
  after_foreign (acquire other t duration now later) l e h =
      grind (arith, lookup-insert, eq_iff other name, eq_iff token t)
  after_foreign (release other t now later) l e h =
      grind (arith, lookup-remove, eq_iff other name, eq_iff token t)

  run_foreign :
      (calls : List Call) (l : Locks)
      → lookup name l.locks ≡ some (some token, end)
      → AllForeign name token end calls
      → lookup name (run calls l).locks ≡ some (some token, end)
  unfolding run
  run_foreign [] l e h = e
  run_foreign (c ∷ calls) l e h = run_foreign calls (after c l) (after_foreign c l e h.0) h.1

granted_entry :
    (name token : String) (duration now later f : ℕ) (l : Locks)
    → (Lock.acquire name token duration now later l).0 ≡ fence f
    → lookup name (Lock.acquire name token duration now later l).1.locks
      ≡ some (some token, later + duration)
unfolding Lock.acquire
granted_entry name token duration now later f l h =
    ground (arith, lookup-insert_self name (some token, later + duration) l.locks)

abbrev pub Excludes : String → String → String → ℕ → ℕ → ℕ → Locks → Type 0
Excludes name token other duration now later l =
    (owned name token now l ≡ true)
    × (owned name other now l ≡ false)
    × (Lock.acquire name other duration now later l ≡ (refused, l))

entry-Excludes :
    (name token other : String) (duration now later end : ℕ) (l : Locks)
    → lookup name l.locks ≡ some (some token, end)
    → other ≢ token
    → now ≤ end
    → Excludes name token other duration now later l
unfolding Lock.acquire owned
entry-Excludes name token other duration now later end l e ne le =
    ground (arith, eq_iff token other, eq_iff token token)

-- While a lease that was granted runs, and whatever the other tokens call meanwhile on this or any
-- other name, its token owns the lock, no other does, and `acquire` refuses every other token and
-- changes nothing.
pub lease-Excludes :
    (name token other : String) (duration now later f now' later' duration' : ℕ) (calls : List Call)
    (l : Locks)
    → (Lock.acquire name token duration now later l).0 ≡ fence f
    → AllForeign name token (later + duration) calls
    → other ≢ token
    → now' ≤ later + duration
    → Excludes name token other duration' now' later'
        (run calls (Lock.acquire name token duration now later l).1)
lease-Excludes name token other duration now later f now' later' duration' calls l h foreign ne le =
    entry-Excludes name token other duration' now' later' (later + duration)
      (run calls (Lock.acquire name token duration now later l).1)
      (run_foreign name token (later + duration) calls
        (Lock.acquire name token duration now later l).1
        (granted_entry name token duration now later f l h) foreign)
      ne le
