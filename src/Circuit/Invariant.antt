-- ===== src/Circuit/Invariant.antt =====
-- What holds of every entry that the operations of circuitbreaker/memory.py write.
use grelmicro.Prelude.{
  ℕ, ◌<◌, ◌≤◌, ◌≡◌, Bool, Option, none, some, String, List, [], ◌∷◌, arith, string_eq, Option-cases,
  inl, inr,
}
use grelmicro.Dict.{lookup, lookup-insert_self, lookup-remove_self}
use grelmicro.Circuit.{
  CircuitState, closed, open_circuit, half_open, Breaker, Config, Strategy, bind, States, live,
  try_acquire, record_outcome, transition,
}
use grelmicro.Circuit.Observe.{Operation, acquire, outcome, force, exec, Held, lookup-live}

abbrev pub Counts : Config → CircuitState → Breaker → Type 0
Counts cfg closed b = (b.consecutive_error_count < cfg.error_threshold) × (b.half_open_admit ≡ 0)
Counts cfg half_open b =
    (b.consecutive_error_count < cfg.error_threshold)
    × (b.consecutive_success_count < cfg.success_threshold)
    × (b.half_open_admit ≤ cfg.half_open_capacity)
Counts cfg _ b =
    (b.consecutive_error_count ≡ 0) × (b.consecutive_success_count ≡ 0) × (b.half_open_admit ≡ 0)

abbrev pub Fits : Config → Breaker → Type 0
Fits cfg b = Counts cfg b.state b × Held b.state b.expires_at

abbrev pub FitsAll : Config → Option Breaker → Type 0
FitsAll cfg none = Unit
FitsAll cfg (some b) = Fits cfg b

pub record IsPositive (cfg : Config) : Type 0 where
  pub errors : 0 < cfg.error_threshold
  pub successes : 0 < cfg.success_threshold

abbrev pub IsValid : String → Config → States → Type 0
IsValid name cfg states = FitsAll cfg (lookup name states)

module _ (name : String) (cfg : Config) (now : ℕ) (states : States) (pos : IsPositive cfg) where
  live-Fits : IsValid name cfg states → Fits cfg (live (bind name cfg) now states).0
  unfolding live bind
  live-Fits v = ground arith

  acquire-IsValid :
      IsValid name cfg states → IsValid name cfg (try_acquire (bind name cfg) now states).1
  unfolding try_acquire bind
  acquire-IsValid v = elim (Option-cases (lookup name states)) [
    | inl e ↦ ground arith
    | inr (b, e) ↦
        grind (arith, lookup-insert_self, lookup-live (bind name cfg) now states, live-Fits)
  ]

  outcome-IsValid :
      (success : Bool)
      → IsValid name cfg states
      → IsValid name cfg (record_outcome (bind name cfg) now success states).1
  unfolding record_outcome bind
  outcome-IsValid success v = grind (
    arith,
    lookup-insert_self,
    lookup-remove_self,
    lookup-live (bind name cfg) now states,
    live-Fits v,
  )

  transition-IsValid :
      (desired : CircuitState) (cool_down : Option ℕ)
      → IsValid name cfg (transition (bind name cfg) desired cool_down now states)
  unfolding transition bind
  transition-IsValid closed cool_down = ground (arith, lookup-remove_self name states)
  transition-IsValid open_circuit none = grind (arith, lookup-insert_self)
  transition-IsValid open_circuit (some t) = grind (arith, lookup-insert_self)
  transition-IsValid _ cool_down = grind (arith, lookup-insert_self)

-- The operations of a run, each with the reading of the clock that it makes.
unfoldable pub run : Strategy → List (ℕ × Operation) → States → States
run s [] states = states
run s ((now, op) ∷ rest) states = run s rest (exec s now op states).1

module _ (name : String) (cfg : Config) (pos : IsPositive cfg) where
  pub exec-IsValid :
      (now : ℕ) (op : Operation) (states : States)
      → IsValid name cfg states
      → IsValid name cfg (exec (bind name cfg) now op states).1
  unfolding exec
  exec-IsValid now acquire states v = acquire-IsValid name cfg now states pos v
  exec-IsValid now (outcome success) states v = outcome-IsValid name cfg now states pos success v
  exec-IsValid now (force desired cool_down) states v =
      transition-IsValid name cfg now states pos desired cool_down

  -- From a store whose entry is valid, such as the empty one, every run of operations under a
  -- configuration with positive thresholds leaves a valid entry: a circuit that counts errors or
  -- successes has not reached the threshold, the counter of admitted probes is at most
  -- `half_open_capacity`, it is 0 in every other state, and a forced state has no deadline. The
  -- counter is what is bounded: the calls in flight that it no longer counts are not.
  pub run-IsValid :
      (ops : List (ℕ × Operation)) (states : States)
      → IsValid name cfg states
      → IsValid name cfg (run (bind name cfg) ops states)
  unfolding run
  run-IsValid [] states v = v
  run-IsValid ((now, op) ∷ rest) states v =
      run-IsValid rest (exec (bind name cfg) now op states).1 (exec-IsValid now op states v)
