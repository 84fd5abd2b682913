-- ===== src/Idempotency/Flight.antt =====
-- The executions of the blocks of idempotency/_idempotency.py, in whatever order blocks are entered and
-- left.
use grelmicro.Prelude.{
  ℕ, ◌+◌, ◌≤◌, ◌<◌, ◌≡◌, ◌≢◌, refl, ap, sym, ◌∙◌, Option, none, some, String, List, [], ◌∷◌,
  string_eq, contains, leb, arith, Bool-cases, inl, inr,
}
use grelmicro.Cache.Backend.{CacheBackend}
use grelmicro.Clock.{second}
use grelmicro.Idempotency.{
  Idempotency, response_key, fingerprint_key, Replay, miss, conflict, stored, Body, returned,
  returned_none, raised, World, replay, leave, executes, entered, enter_locked, look,
}
use grelmicro.Idempotency.Replays.{
  found, replay-found, enter_locked-enters, leave-written, written, written-response, enters,
}

-- What blocks of a key do, with the time of each: they look the response up, enter under the lock, or
-- leave.
pub data Event : Type 0 where
  looks enters_locked : Option String → Event
  leaves : Option String → Body → Event

module _ (b : CacheBackend) (i : Idempotency) where
  unfoldable pub happen : String → Event → ℕ → World b i → World b i
  happen key (looks f) now w = (look b i key f now w).1
  happen key (enters_locked f) now w = (enter_locked b i key f now w).1
  happen key (leaves f body) now w = leave b i key f body now w

  -- Events of any keys, each with its key and its time.
  unfoldable pub happens : List (String × (ℕ × Event)) → World b i → World b i
  unfolding happen
  happens [] w = w
  happens ((key, (now, e)) ∷ es) w = happens es (happen key e now w)

  -- The times do not go back.
  abbrev pub InOrder : ℕ → List (String × (ℕ × Event)) → ℕ → Type 0
  InOrder start [] end = start ≤ end
  InOrder start ((key, (now, e)) ∷ es) end = (start ≤ now) × InOrder now es end

  -- A response of the key can be read from a time until another.
  abbrev Lives : String → ℕ → ℕ → World b i → Type 0
  Lives key from until w =
      ((t : ℕ) → from ≤ t → t < until → b.peek (response_key i key) t w.store ≢ none)
      × (w.cache.maxsize ≡ 0)

  module _ (key : String) (until : ℕ) where
    some-ne-none : (x : String) (o : Option String) → o ≡ some x → o ≢ none
    some-ne-none x o e h = ground arith

    written-Lives :
        (other response : String) (f : Option String) (now t : ℕ) (w : World b i)
        → until ≤ now + i.ttl
        → t < until
        → b.peek (response_key i key) t w.store ≢ none
        → b.peek (response_key i key) t (written b i other response f now w) ≢ none
    written-Lives other response none now t w le lt alive h = ground (
      arith,
      b.set-peek (response_key i other) (response_key i key) response i.ttl now t [] w.store,
      alive,
      h,
      le,
      lt,
    )
    written-Lives other response (some f) now t w le lt alive h = ground (
      arith,
      b.set-peek (response_key i other) (response_key i key) response i.ttl now t []
          (b.set (fingerprint_key i other) f (i.ttl + second) [] now w.store),
      b.set-peek (fingerprint_key i other) (response_key i key) f (i.ttl + second) now t [] w.store,
      alive,
      h,
      le,
      lt,
    )

    replay-Lives :
        (other : String) (f : Option String) (now : ℕ) (w : World b i)
        → Lives key now until w
        → Lives key now until (replay b i other f now w).1
    replay-Lives other f now w (alive, unlimited) =
        let (r, (keeps, (mx, lk))) = replay-found b i other f now w in
        (
          λ t from lt h. alive t from lt (sym (keeps (response_key i key) t from) ∙ h),
          mx ∙ unlimited,
        )

    entered-Lives :
        (other : String) (now : ℕ) (r : Replay) (w : World b i)
        → Lives key now until w
        → Lives key now until (entered b i other r w).1
    entered-Lives other now miss w l = l
    entered-Lives other now conflict w l = l
    entered-Lives other now (stored response) w l = l

    enter_locked-Lives :
        (other : String) (f : Option String) (now : ℕ) (w : World b i)
        → Lives key now until w
        → Lives key now until (enter_locked b i other f now w).1
    unfolding enter_locked
    enter_locked-Lives other f now w l = elim (Bool-cases (contains w.locked other)) [
      | inl held ↦ rw held l
      | inr free ↦ rw free (
          entered-Lives other now (replay b i other f now w).0 (replay b i other f now w).1
            (replay-Lives other f now w l))
    ]

    leave-Lives :
        (other : String) (f : Option String) (body : Body) (now : ℕ) (w : World b i)
        → 0 < i.ttl
        → until ≤ now + i.ttl
        → Lives key now until w
        → Lives key now until (leave b i other f body now w)
    unfolding leave
    leave-Lives other f returned_none now w pos le l = l
    leave-Lives other f (raised error) now w pos le l = l
    leave-Lives other f (returned response) now w pos le (alive, unlimited) =
        let (st, (mx, lk)) = leave-written b i other response f now w pos unlimited in
        (
          λ t from lt h.
              written-Lives other response f now t w le lt (alive t from lt)
                (ap (b.peek (response_key i key) t) (sym st) ∙ h),
          mx,
        )

    happen-Lives :
        (other : String) (e : Event) (now : ℕ) (w : World b i)
        → 0 < i.ttl
        → until ≤ now + i.ttl
        → Lives key now until w
        → Lives key now until (happen other e now w)
    unfolding happen look
    happen-Lives other (looks f) now w pos le l = replay-Lives other f now w l
    happen-Lives other (enters_locked f) now w pos le l = enter_locked-Lives other f now w l
    happen-Lives other (leaves f body) now w pos le l = leave-Lives other f body now w pos le l

    later-Lives :
        (start now : ℕ) (w : World b i)
        → start ≤ now
        → Lives key start until w
        → Lives key now until w
    later-Lives start now w le (alive, unlimited) =
        (λ t from lt. alive t (omega (arith, le, from)) lt, unlimited)

    happens-Lives :
        (start end : ℕ) (es : List (String × (ℕ × Event))) (w : World b i)
        → 0 < i.ttl
        → until ≤ start + i.ttl
        → InOrder start es end
        → Lives key start until w
        → Lives key end until (happens es w)
    unfolding happens
    happens-Lives start end [] w pos le order l = later-Lives start end w order l
    happens-Lives start end ((other, (now, e)) ∷ es) w pos le (from, order) l =
        happens-Lives now end es (happen other e now w) pos (omega (arith, le, from)) order (
          happen-Lives other e now w pos (omega (arith, le, from)) (later-Lives start now w from l))

  module _ (key : String) (g : Option String) (now : ℕ) where
    enters-found :
        (raw f saved : Option String)
        → enters b i key (found b i key raw f saved) ≡ executes
        → raw ≡ none
    enters-found none f saved e = refl
    enters-found (some response) f saved e = ground (arith, e)

    executes-none :
        (w : World b i)
        → (enter_locked b i key g now w).0 ≡ executes
        → b.peek (response_key i key) now w.store ≡ none
    unfolding enter_locked
    executes-none w e = elim (Bool-cases (contains w.locked key)) [
      | inl held ↦ absurd (ground (arith, held, e))
      | inr free ↦
          enters-found (b.peek (response_key i key) now w.store) g
            (b.peek (fingerprint_key i key) now w.store)
            (ap (enters b i key) (sym (replay-found b i key g now w).0)
              ∙ sym (enter_locked-enters b i key g now w free)
              ∙ e)
    ]

  -- With a cache that evicts nothing, a key executes again only once the response of every earlier
  -- execution is past its lifetime, whatever blocks of any keys do in between, and with any fingerprints.
  pub executes-once :
      (key response : String) (f g : Option String) (now end : ℕ) (es : List (String × (ℕ × Event)))
      (w : World b i)
      → 0 < i.ttl
      → w.cache.maxsize ≡ 0
      → InOrder now es end
      → (enter_locked b i key g end (happens es (leave b i key f (returned response) now w))).0
        ≡ executes
      → now + i.ttl ≤ end
  executes-once key response f g now end es w pos unlimited order runs =
      let w1 = leave b i key f (returned response) now w in
      let (st, (mx, lk)) = leave-written b i key response f now w pos unlimited in
      let start : Lives key now (now + i.ttl) w1 = (
        λ t from lt h.
            some-ne-none key now response (b.peek (response_key i key) t w1.store)
              (ap (b.peek (response_key i key) t) st
                ∙ written-response b i key response f now t w lt)
              h,
        mx,
      ) in
      let w2 = happens es w1 in
      let l = happens-Lives key (now + i.ttl) now end es w1 pos (omega arith) order start in
      elim (Bool-cases (leb (now + i.ttl) end)) [
        | inl past ↦ ground (arith, past)
        | inr early ↦
            absurd (l.0 end (omega arith) (ground (arith, early)) (executes-none key g end w2 runs))
      ]
