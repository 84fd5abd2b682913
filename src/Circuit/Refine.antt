-- ===== src/Circuit/Refine.antt =====
-- circuitbreaker/memory.py against the observable circuit of each name.
use grelmicro.Prelude.{
  true, false, ℕ, ◌≤◌, ◌≡◌, Bool, Option, none, some, String, arith, string_eq, Option-cases, inl,
  inr,
}
use grelmicro.Dict.{lookup, lookup-insert_self, lookup-remove_self}
use grelmicro.Circuit.{
  get_snapshot, CircuitState, closed, open_circuit, state_ttl, Config, Strategy, bind, States,
  try_acquire, record_outcome, transition, resolve_state_ttl,
}
use grelmicro.Circuit.Observe.{
  report_of, observe, Operation, acquire, outcome, force, exec, step, IsHeld, lookup-live,
}

pub le-resolve_state_ttl : (t : ℕ) → state_ttl ≤ resolve_state_ttl t
unfolding resolve_state_ttl
le-resolve_state_ttl t = omega arith

abbrev pub Refines : Strategy → ℕ → Operation → States → Type 0
Refines s now op states =
    ((exec s now op states).0 ≡ (step s.config now op (observe s.name now states)).0)
    × (observe s.name now (exec s now op states).1
        ≡ (step s.config now op (observe s.name now states)).1)

module _ (name : String) (cfg : Config) (now : ℕ) (states : States) where
  acquire-Refines : IsHeld (lookup name states) → Refines (bind name cfg) now acquire states
  unfolding exec step observe try_acquire bind
  acquire-Refines held = elim (Option-cases (lookup name states)) [
    | inl e ↦ ground arith
    | inr (b, e) ↦ grind (
      arith,
      lookup-insert_self,
      lookup-live (bind name cfg) now states,
      le-resolve_state_ttl cfg.reset_timeout,
    )
  ]

  outcome-Refines : (success : Bool) → Refines (bind name cfg) now (outcome success) states
  unfolding exec step observe record_outcome bind
  outcome-Refines success = grind (
    arith,
    lookup-insert_self,
    lookup-remove_self,
    lookup-live (bind name cfg) now states,
    le-resolve_state_ttl cfg.reset_timeout,
  )

  force-Refines :
      (desired : CircuitState) (cool_down : Option ℕ)
      → Refines (bind name cfg) now (force desired cool_down) states
  unfolding exec step observe transition bind
  force-Refines closed cool_down = grind (arith, lookup-remove_self)
  force-Refines open_circuit none =
      grind (arith, lookup-insert_self, le-resolve_state_ttl cfg.reset_timeout)
  force-Refines open_circuit (some t) = grind (arith, lookup-insert_self, le-resolve_state_ttl t)
  force-Refines _ cool_down = grind (arith, lookup-insert_self)

-- Every operation of a strategy, on any store, replies what the specification replies on the
-- circuit that is observed under the breaker's name, and leaves the circuit that the specification
-- leaves: a missing entry, an expired one and a dropped one are circuits at rest, and what `_live`
-- and `_cull` reclaim cannot be told. The hypothesis: a forced entry has no deadline.
pub exec-Refines :
    (name : String) (cfg : Config) (now : ℕ) (op : Operation) (states : States)
    → IsHeld (lookup name states)
    → Refines (bind name cfg) now op states
exec-Refines name cfg now acquire states held = acquire-Refines name cfg now states held
exec-Refines name cfg now (outcome success) states held =
    outcome-Refines name cfg now states success
exec-Refines name cfg now (force desired cool_down) states held =
    force-Refines name cfg now states desired cool_down

-- Reading a snapshot is reading the observed circuit.
pub get_snapshot-eq-report_of :
    (s : Strategy) (now : ℕ) (states : States)
    → get_snapshot s now states ≡ report_of (observe s.name now states)
unfolding get_snapshot observe
get_snapshot-eq-report_of s now states = ground arith

-- What `record_outcome` returns is what a snapshot read at the same time shows.
pub record_outcome-eq-get_snapshot :
    (name : String) (cfg : Config) (now : ℕ) (success : Bool) (states : States)
    → IsHeld (lookup name states)
    → (record_outcome (bind name cfg) now success states).0
      ≡ get_snapshot (bind name cfg) now (record_outcome (bind name cfg) now success states).1
unfolding exec step bind
record_outcome-eq-get_snapshot name cfg now true states held =
    grind (arith, get_snapshot-eq-report_of, exec-Refines name cfg now (outcome true) states held)
record_outcome-eq-get_snapshot name cfg now false states held =
    grind (arith, get_snapshot-eq-report_of, exec-Refines name cfg now (outcome false) states held)
