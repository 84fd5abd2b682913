-- ===== src/Idempotency/Replays.antt =====
-- What the idempotent blocks of idempotency/_idempotency.py replay.
use grelmicro.Prelude.{
  ℕ, ◌+◌, ◌≤◌, ◌<◌, ◌≡◌, ◌≢◌, refl, ap, ◌∙◌, false, Option, none, some, String, [], string_eq,
  contains, leb, ltb, arith, eq_iff,
}
use grelmicro.Cache.Backend.{CacheBackend}
use grelmicro.Cache.Ttl
use grelmicro.Cache.Ttl.{TtlCache, value_key}
use grelmicro.Cache.Sets.{discard, contains-discard}
use grelmicro.Clock.{second}
use text.Mathlib.TextLemmas.{length-append}
use Prim.Native.String.{count}
use grelmicro.Idempotency.{
  Idempotency, scoped, response_key, fingerprint_key, Replay, miss, conflict, stored, returned,
  World, compared, checked, replay, guard, persist, leave, Entered, replays, conflicts, executes,
  entered, enter_locked,
}

module _ (b : CacheBackend) (i : Idempotency) (key : String) where
  -- What a lookup finds, by the response and by the fingerprint that can be read.
  abbrev pub found : Option String → Option String → Option String → Replay
  found none f saved = miss
  found (some response) none saved = stored response
  found (some response) (some f) saved = compared b i response f saved

  checked-found :
      (f : Option String) (now : ℕ) (raw : Option String) (s : b.State)
      → ((checked b i key f now raw s).0 ≡ found raw f (b.peek (fingerprint_key i key) now s))
        × ((j : String) (later : ℕ)
            → now ≤ later
            → b.peek j later (checked b i key f now raw s).1 ≡ b.peek j later s)
  checked-found f now none s = (refl, λ j later le. refl)
  checked-found none now (some response) s = (refl, λ j later le. refl)
  checked-found (some f) now (some response) s = (
    ap (compared b i response f)
        (b.get-peek (fingerprint_key i key) (fingerprint_key i key) now now s (omega arith)).0,
    λ j later le. (b.get-peek (fingerprint_key i key) j now later s le).1,
  )

  -- A lookup, over what can be read, and what it leaves.
  pub replay-found :
      (f : Option String) (now : ℕ) (w : World b i)
      → ((replay b i key f now w).0
          ≡ found
              (b.peek (response_key i key) now w.store)
              f
              (b.peek (fingerprint_key i key) now w.store))
        × (((j : String) (later : ℕ)
              → now ≤ later
              → b.peek j later (replay b i key f now w).1.store ≡ b.peek j later w.store)
            × (((replay b i key f now w).1.cache.maxsize ≡ w.cache.maxsize)
                × ((replay b i key f now w).1.locked ≡ w.locked)))
  unfolding replay Ttl.get
  replay-found f now w =
      let raw = (b.get (response_key i key) now w.store).0 in
      let s = (b.get (response_key i key) now w.store).1 in
      let (r, keeps) = checked-found f now raw s in
      let (e, _) =
        b.get-peek (response_key i key) (response_key i key) now now w.store (omega arith) in
      let (_, g) =
        b.get-peek (response_key i key) (fingerprint_key i key) now now w.store (omega arith) in
      (
        r
            ∙ ap (λ x. found x f (b.peek (fingerprint_key i key) now s)) e
            ∙ ap (found (b.peek (response_key i key) now w.store) f) g,
        (
          λ j later le.
              keeps j later le ∙ (b.get-peek (response_key i key) j now later w.store le).1,
          (ground arith, refl),
        ),
      )

  -- The store after a response is written.
  abbrev pub written : String → Option String → ℕ → World b i → b.State
  written response f now w =
      b.set (response_key i key) response i.ttl [] now (guard b i key f now w.store)

  persist-written :
      (response : String) (f : Option String) (now : ℕ) (w : World b i)
      → 0 < i.ttl
      → w.cache.maxsize ≡ 0
      → (w' : World b i) × ((persist b i key response f now w ≡ some w')
          × ((w'.store ≡ written response f now w)
              × ((w'.cache.maxsize ≡ 0) × (w'.locked ≡ w.locked))))
  unfolding persist Ttl.set Ttl.write
  persist-written response f now w pos unlimited =
      let bad : leb i.ttl 0 ≡ false = ground arith in
      let room : ltb 0 w.cache.maxsize ≡ false = ground arith in
      let set_stores : Ttl.set b (scoped i key) response (some i.ttl) [] none now now w.cache
            (guard b i key f now w.store)
          ≡ some (w.cache, written response f now w) =
        ground (arith, bad, room) in
      (
        record w { store = written response f now w },
        (rw (set_stores, persist) refl, (refl, (unlimited, refl))),
      )

  -- The fingerprint that can be read after a response is written with one or without.
  abbrev pub saved_after : Option String → Option String → Option String
  saved_after none old = old
  saved_after (some f) old = some f

  lifetime-lt : (now later ttl : ℕ) → later < now + ttl → later < now + (ttl + second)
  lifetime-lt now later ttl lt = omega arith

  fingerprint_key-ne : fingerprint_key i key ≢ response_key i key
  fingerprint_key-ne e =
      let n : count (fingerprint_key i key) ≡ count (response_key i key) + 3 =
        length-append (response_key i key) "\u{1f}fp" in
      let m : count (fingerprint_key i key) ≡ count (response_key i key) = ap count e in
      absurd (omega (arith, n, m))

  pub written-response :
      (response : String) (f : Option String) (now later : ℕ) (w : World b i)
      → later < now + i.ttl
      → b.peek (response_key i key) later (written response f now w) ≡ some response
  written-response response f now later w lt = ground (
    arith,
    b.set-peek (response_key i key) (response_key i key) response i.ttl now later []
        (guard b i key f now w.store),
    eq_iff (response_key i key) (response_key i key),
    lt,
  )

  guard-peek :
      (f : Option String) (now later : ℕ) (s : b.State)
      → later < now + (i.ttl + second)
      → b.peek (fingerprint_key i key) later (guard b i key f now s)
        ≡ saved_after f (b.peek (fingerprint_key i key) later s)
  guard-peek none now later s lt = refl
  guard-peek (some f) now later s lt = ground (
    arith,
    b.set-peek (fingerprint_key i key) (fingerprint_key i key) f (i.ttl + second) now later [] s,
    eq_iff (fingerprint_key i key) (fingerprint_key i key),
  )

  written-fingerprint :
      (response : String) (f : Option String) (now later : ℕ) (w : World b i)
      → later < now + (i.ttl + second)
      → b.peek (fingerprint_key i key) later (written response f now w)
        ≡ saved_after f (b.peek (fingerprint_key i key) later w.store)
  written-fingerprint response f now later w lt = ground (
    arith,
    b.set-peek (response_key i key) (fingerprint_key i key) response i.ttl now later []
        (guard b i key f now w.store),
    eq_iff (response_key i key) (fingerprint_key i key),
    fingerprint_key-ne,
    guard-peek f now later w.store lt,
  )

  -- What entering a block comes to, by what its lookup finds.
  abbrev pub enters : Replay → Entered b i
  enters (stored response) = replays response
  enters conflict = conflicts
  enters miss = executes

  entered-enters : (r : Replay) (w : World b i) → (entered b i key r w).0 ≡ enters r
  entered-enters miss w = refl
  entered-enters conflict w = refl
  entered-enters (stored response) w = refl

  pub enter_locked-enters :
      (f : Option String) (now : ℕ) (w : World b i)
      → contains w.locked key ≡ false
      → (enter_locked b i key f now w).0 ≡ enters (replay b i key f now w).0
  unfolding enter_locked
  enter_locked-enters f now w free =
      rw free (entered-enters (replay b i key f now w).0 (replay b i key f now w).1)

  pub leave-written :
      (response : String) (f : Option String) (now : ℕ) (w : World b i)
      → 0 < i.ttl
      → w.cache.maxsize ≡ 0
      → ((leave b i key f (returned response) now w).store ≡ written response f now w)
        × (((leave b i key f (returned response) now w).cache.maxsize ≡ 0)
            × ((leave b i key f (returned response) now w).locked ≡ discard key w.locked))
  unfolding leave
  leave-written response f now w pos unlimited =
      let (w', (q, (st, (mx, lk)))) = persist-written response f now w pos unlimited in
      rw q (st, (mx, ap (discard key) lk))

  -- Over a cache without a size limit, a block that is entered directly after one that has stored a
  -- response, with no block of any key in between and within the lifetime of the response, does not
  -- execute: it replays the response, or raises IdempotencyConflictError where it comes with a
  -- fingerprint other than the one stored. A block without a fingerprint leaves the stored one as it is.
  pub enter-leave :
      (response : String) (f g : Option String) (now later : ℕ) (w : World b i)
      → 0 < i.ttl
      → w.cache.maxsize ≡ 0
      → now ≤ later
      → later < now + i.ttl
      → (enter_locked b i key g later (leave b i key f (returned response) now w)).0
        ≡ enters
            (found (some response) g (saved_after f (b.peek (fingerprint_key i key) later w.store)))
  enter-leave response f g now later w pos unlimited le lt =
      let w' = leave b i key f (returned response) now w in
      let (st, (mx, lk)) = leave-written response f now w pos unlimited in
      let free : contains w'.locked key ≡ false =
        ap (λ ks. contains ks key) lk
        ∙ ground (arith, contains-discard key key w.locked, eq_iff key key) in
      let r : b.peek (response_key i key) later w'.store ≡ some response =
        ap (b.peek (response_key i key) later) st ∙ written-response response f now later w lt in
      let p : b.peek (fingerprint_key i key) later w'.store
          ≡ saved_after f (b.peek (fingerprint_key i key) later w.store) =
        ap (b.peek (fingerprint_key i key) later) st
        ∙ written-fingerprint response f now later w (lifetime-lt now later i.ttl lt) in
      enter_locked-enters g later w' free
      ∙ ap enters (
          (replay-found g later w').0
          ∙ ap (λ x. found x g (b.peek (fingerprint_key i key) later w'.store)) r
          ∙ ap (found (some response) g) p)
