-- ===== src/Idempotency/Tests.antt =====
-- Runs of the idempotent blocks over the in-memory cache, and their theorems at concrete inputs.
use grelmicro.Prelude.{
  ℕ, ◌≤◌, ◌≡◌, refl, none, some, String, List, [], ◌∷◌, string_eq, contains, arith,
}
use grelmicro.Dict.{lookup, insert, remove}
use grelmicro.Cache.Sets.{discard}
use grelmicro.Cache.Memory
use grelmicro.Cache.Memory.{untag, drop}
use grelmicro.Cache.Memory.Reads.{peek}
use grelmicro.Cache.Backend.{memory}
use grelmicro.Cache.Ttl
use grelmicro.Idempotency.{
  Idempotency, fingerprint_key, World, returned, raised, replays, executes, waits, enter_locked,
  look, leave, replay,
}
use grelmicro.Idempotency.Replays.{found, saved_after, enters, enter-leave}
use grelmicro.Idempotency.Flight.{Event, looks, enters_locked, leaves, happens, executes-once}

abbrev payments : Idempotency
payments = record { name = "pay"; ttl = 10000000; fingerprint = none }

abbrev world : World memory payments
world = record {
  cache = record { maxsize = 0; ttl = 60000000; hits = 0; misses = 0; evictions = 0; keys = [] };
  store = Memory.init;
  locked = [];
}

-- The key is executed, is waited for, and then its response is replayed.
entered_first : (enter_locked memory payments "k" none 5 world).0 ≡ executes
unfolding enter_locked Ttl.get Memory.get lookup contains
entered_first = refl

entered_meanwhile :
    (enter_locked memory payments "k" none 6 (enter_locked memory payments "k" none 5 world).1).0
    ≡ waits
unfolding enter_locked Ttl.get Memory.get lookup contains
entered_meanwhile = refl

entered_after :
    (enter_locked memory payments "k" none 9
      (leave memory payments "k" none (returned "ok") 7 world)).0
    ≡ replays "ok"
unfolding enter_locked leave Ttl.get Ttl.set Memory.get Memory.set untag lookup insert remove
    contains discard
entered_after = refl

enter-leave_example :
    (enter_locked memory payments "k"
      (some "f")
      9
      (leave memory payments "k" (some "f") (returned "ok") 7 world)).0
    ≡ enters memory payments "k" (
        found memory payments "k" (some "ok") (some "f") (
          saved_after memory payments "k"
            (some "f")
            (peek (fingerprint_key payments "k") 9 world.store)))
enter-leave_example =
    enter-leave memory payments "k" "ok" (some "f") (some "f") 7 9 world (omega arith) refl
      (omega arith) (omega arith)

-- A body raises and the next one stores; after its lifetime the key is executed again.
abbrev events : List (String × (ℕ × Event))
events =
    ("k", (8, looks none))
    ∷ ("j", (9, enters_locked none))
    ∷ ("j", (11, leaves none (raised "boom")))
    ∷ []

runs_again :
    (enter_locked memory payments "k" none 10000008
      (happens memory payments events (leave memory payments "k" none (returned "ok") 7 world))).0
    ≡ executes
unfolding happens look enter_locked leave replay Ttl.get Ttl.set Memory.get Memory.set untag drop
    lookup insert remove contains discard
runs_again = refl

executes-once_example : 10000007 ≤ 10000008
executes-once_example =
    executes-once memory payments "k" "ok" none none 7 10000008 events world (omega arith) refl
      (omega arith) runs_again
