-- ===== src/Coordination/Lock/Fencing.antt =====
-- The fencing tokens of `MemoryLockAdapter`.
use grelmicro.Prelude.{
  ℕ, ◌+◌, ◌<◌, ◌≤◌, ◌≡◌, ◌≢◌, refl, true, Option, none, some, String, List, [], ◌∷◌, arith,
  string_eq, eq_iff,
}
use grelmicro.Dict.{lookup, lookup-insert, lookup-remove, lookup-insert_self}
use grelmicro.Coordination.Lock
use grelmicro.Coordination.Lock.{
  Locks, init, entry, Acquired, fence, refused, key_error, free, is_token,
}

-- One call of the adapter, with the readings of the clock that it makes.
pub data Call : Type 0 where
  acquire : String → String → ℕ → ℕ → ℕ → Call
  release : String → String → ℕ → ℕ → Call

unfoldable pub after : Call → Locks → Locks
after (acquire name token duration now later) l = (Lock.acquire name token duration now later l).1
after (release name token now later) l = (Lock.release name token now later l).1

unfoldable pub run : List Call → Locks → Locks
run [] l = l
run (c ∷ calls) l = run calls (after c l)

-- The highest fencing token of a name; 0 where none was issued.
abbrev pub high_water : Locks → String → ℕ
high_water l name = elim (lookup name l.fences) [ none ↦ 0 | some n ↦ n ]

abbrev OnlyBy : Option String → String → Type 0
OnlyBy none token = Unit
OnlyBy (some t) token = t ≡ token

-- `f` was issued to `token`: no later token of the name is below it, and while it is the last one
-- only `token` can hold the lock.
record IsIssued (name token : String) (f : ℕ) (l : Locks) : Type 0 where
  below : f ≤ high_water l name
  current : (f ≡ high_water l name) → OnlyBy (entry l name).0 token

abbrev HasFence : Option ℕ → Option String → Type 0
HasFence none current = current ≡ none
HasFence (some n) current = Unit

abbrev pub IsFenced : Locks → Type 0
IsFenced l = (name : String) → HasFence (lookup name l.fences) (entry l name).0

OnlyBy-some : (o : Option String) (t token : String) → o ≡ some t → OnlyBy o token → t ≡ token
OnlyBy-some none t token e h = cc
OnlyBy-some (some s) t token e h = cc

is_token-true : (o : Option String) (t : String) → is_token o t ≡ true → o ≡ some t
is_token-true none t h = cc
is_token-true (some s) t h = ground (arith, eq_iff s t)

module _ (name token : String) (f : ℕ) (l : Locks) where
  after-IsIssued : (c : Call) → IsIssued name token f l → IsIssued name token f (after c l)
  unfolding after Lock.acquire Lock.release
  after-IsIssued (acquire other t duration now later) h = record {
    below = grind (arith, lookup-insert, eq_iff other name, h.below);
    current = λ e. grind (
      arith,
      lookup-insert,
      eq_iff other name,
      h.below,
      h.current,
      is_token-true (entry l other).0 t,
      OnlyBy-some (entry l name).0 t token,
    );
  }
  after-IsIssued (release other t now later) h = record {
    below = ground (arith, h.below);
    current = λ e. grind (arith, lookup-remove, eq_iff other name, h.current);
  }

run-IsIssued :
    (name token : String) (f : ℕ) (calls : List Call) (l : Locks)
    → IsIssued name token f l
    → IsIssued name token f (run calls l)
unfolding run
run-IsIssued name token f [] l h = h
run-IsIssued name token f (c ∷ calls) l h =
    run-IsIssued name token f calls (after c l) (after-IsIssued name token f l c h)

module _ (name token : String) (duration now later f : ℕ) (l : Locks) where
  acquire-IsIssued :
      (Lock.acquire name token duration now later l).0 ≡ fence f
      → IsIssued name token f (Lock.acquire name token duration now later l).1
  unfolding Lock.acquire
  acquire-IsIssued h = record {
    below = grind (arith, lookup-insert_self);
    current = λ e. grind (arith, lookup-insert_self);
  }

  fence_of_issued :
      (other : String)
      → IsIssued name other f l
      → (g : ℕ) → (Lock.acquire name token duration now later l).0 ≡ fence g
      → (f ≤ g) × (other ≢ token → f < g)
  unfolding Lock.acquire
  fence_of_issued other h g e = ground (
    arith,
    h.below,
    h.current,
    lookup-insert_self name (high_water l name + 1) l.fences,
    is_token-true (entry l name).0 token,
    OnlyBy-some (entry l name).0 token other,
  )

-- If `token` is granted fencing token `f` and, after any calls on any names by anybody, `other` is
-- granted `g` on the same name, then `f` is at most `g`, and below it where `other` is not `token`:
-- a resource that keeps the highest fencing token it has seen can refuse a holder that lost the lock.
pub fence_grows :
    (name token other : String) (duration now later duration' now' later' f g : ℕ)
    (calls : List Call) (l : Locks)
    → (Lock.acquire name token duration now later l).0 ≡ fence f
    → (Lock.acquire name other duration' now' later'
        (run calls (Lock.acquire name token duration now later l).1)).0
      ≡ fence g
    → (f ≤ g) × (token ≢ other → f < g)
fence_grows name token other duration now later duration' now' later' f g calls l h k =
    fence_of_issued name other duration' now' later' f
      (run calls (Lock.acquire name token duration now later l).1) token
      (run-IsIssued name token f calls (Lock.acquire name token duration now later l).1
        (acquire-IsIssued name token duration now later f l h))
      g k

after-IsFenced : (c : Call) (l : Locks) → IsFenced l → IsFenced (after c l)
unfolding after Lock.acquire Lock.release
after-IsFenced (acquire other t duration now later) l h name =
    grind (arith, lookup-insert, eq_iff other name, h name, h other)
after-IsFenced (release other t now later) l h name =
    grind (arith, lookup-remove, eq_iff other name, h name)

run-IsFenced : (calls : List Call) (l : Locks) → IsFenced l → IsFenced (run calls l)
unfolding run
run-IsFenced [] l h = h
run-IsFenced (c ∷ calls) l h = run-IsFenced calls (after c l) (after-IsFenced c l h)

init-IsFenced : IsFenced init
unfolding lookup
init-IsFenced name = refl

fenced-ne-key_error :
    (name token : String) (duration now later : ℕ) (l : Locks)
    → HasFence (lookup name l.fences) (entry l name).0
    → (Lock.acquire name token duration now later l).0 ≢ key_error
unfolding Lock.acquire
fenced-ne-key_error name token duration now later l h k =
    grind (arith, lookup-insert_self, is_token-true (entry l name).0 token)

-- In an adapter that has only ever been used through its methods, `acquire` finds the fencing token
-- that it returns: no call raises `KeyError`.
pub acquire-ne-key_error :
    (name token : String) (duration now later : ℕ) (calls : List Call)
    → (Lock.acquire name token duration now later (run calls init)).0 ≢ key_error
acquire-ne-key_error name token duration now later calls =
    fenced-ne-key_error name token duration now later (run calls init)
      (run-IsFenced calls init init-IsFenced name)
