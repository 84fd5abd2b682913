-- ===== src/Circuit/Trip.antt =====
-- How the circuit of circuitbreaker/memory.py trips, and what it does while it is open or trying.
use grelmicro.Prelude.{
  ℕ, suc, ◌+◌, ◌<◌, ◌≤◌, ◌≡◌, false, none, some, String, List, [], ◌∷◌, leb, arith, string_eq,
  nat_eq, length, if◌then◌else◌,
}
use grelmicro.Dict.{lookup, lookup-insert_self}
use grelmicro.Circuit.{
  open_circuit, at, state_ttl, Breaker, Config, Strategy, bind, States, fresh, live, record_outcome,
  resolve_state_ttl,
}

-- Failures recorded at the given readings of the clock, and nothing else.
pub fail_all : Strategy → List ℕ → States → States
fail_all s [] states = states
fail_all s (now ∷ times) states = fail_all s times (record_outcome s now false states).1

-- Each reading comes before the entry that the one before it wrote expires.
abbrev pub IsPaced : ℕ → List ℕ → Type 0
IsPaced last [] = Unit
IsPaced last (t ∷ times) = (t < last + state_ttl) × IsPaced t times

abbrev pub last_of : ℕ → List ℕ → ℕ
last_of t [] = t
last_of t (t' ∷ times) = last_of t' times

abbrev pub counting : ℕ → ℕ → Breaker
counting now n = record (fresh now) { consecutive_error_count = n }

abbrev pub opened : Config → ℕ → Breaker
opened cfg now = record {
  state = open_circuit;
  opened_at = now;
  cool_down = cfg.reset_timeout;
  consecutive_error_count = 0;
  consecutive_success_count = 0;
  half_open_admit = 0;
  expires_at = at (now + resolve_state_ttl cfg.reset_timeout);
}

abbrev pub after_failures : Config → ℕ → ℕ → Breaker
after_failures cfg now n = if leb cfg.error_threshold n then opened cfg now else counting now n

module _ (name : String) (cfg : Config) where
  fail_first :
      (now : ℕ) (states : States)
      → lookup name states ≡ none
      → lookup name (record_outcome (bind name cfg) now false states).1
        ≡ some (after_failures cfg now 1)
  unfolding record_outcome live bind
  fail_first now states e = grind (arith, lookup-insert_self)

  fail_again :
      (last now n : ℕ) (states : States)
      → lookup name states ≡ some (counting last n)
      → now < last + state_ttl
      → lookup name (record_outcome (bind name cfg) now false states).1
        ≡ some (after_failures cfg now (suc n))
  unfolding record_outcome live bind
  fail_again last now n states e p = grind (arith, lookup-insert_self)

  fail_all_from :
      (last n : ℕ) (times : List ℕ) (states : States)
      → lookup name states ≡ some (after_failures cfg last n)
      → IsPaced last times
      → n + length times ≤ cfg.error_threshold
      → lookup name (fail_all (bind name cfg) times states)
        ≡ some (after_failures cfg (last_of last times) (n + length times))
  unfolding fail_all
  fail_all_from last n [] states e p h = ground arith
  fail_all_from last n (now ∷ times) states e p h = ground (
    arith,
    fail_again last now n states,
    fail_all_from now (suc n) times (record_outcome (bind name cfg) now false states).1,
  )

  -- From no entry, a row of failures, each within a day of the one before it and at most
  -- `error_threshold` of them, leaves the circuit closed with all of them counted, or open with
  -- the last one as `opened_at`, exactly when there are `error_threshold` of them.
  pub fail_all-eq-after_failures :
      (first : ℕ) (times : List ℕ) (states : States)
      → lookup name states ≡ none
      → IsPaced first times
      → length (first ∷ times) ≤ cfg.error_threshold
      → lookup name (fail_all (bind name cfg) (first ∷ times) states)
        ≡ some (after_failures cfg (last_of first times) (length (first ∷ times)))
  unfolding fail_all
  fail_all-eq-after_failures first times states e p h = ground (
    arith,
    fail_first first states e,
    fail_all_from first 1 times (record_outcome (bind name cfg) first false states).1,
  )
