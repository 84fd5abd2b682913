-- ===== src/Circuit/Observe.antt =====
-- What the store of circuitbreaker/memory.py promises: one circuit for each name, as if nothing
-- were ever expired, culled or dropped. `exec` runs an operation of the code, `step` the same
-- operation on the circuit that can be observed.
use grelmicro.Prelude.{
  ℕ, ◌+◌, ◌-◌, ◌≡◌, refl, Bool, true, false, Option, none, some, String, [], ◌∷◌, ltb, leb,
  if◌then◌else◌, arith, string_eq,
}
use grelmicro.Dict.{lookup, insert, remove, lookup-remove, lookup-insert_self}
use grelmicro.Circuit.{
  CircuitState, closed, open_circuit, half_open, forced_open, forced_closed, Deadline, never,
  reached, Breaker, Snapshot, Config, Strategy, States, cull_from, fresh, live, try_acquire,
  record_outcome, transition,
}

-- The circuit, without its deadline.
pub record Circuit : Type 0 where
  pub state : CircuitState
  pub opened_at : ℕ
  pub cool_down : ℕ
  pub errors : ℕ
  pub successes : ℕ
  pub admitted : ℕ

abbrev pub at_rest : Circuit
at_rest = record {
  state = closed;
  opened_at = 0;
  cool_down = 0;
  errors = 0;
  successes = 0;
  admitted = 0;
}

abbrev pub circuit_of : Breaker → Circuit
circuit_of b = record {
  state = b.state;
  opened_at = b.opened_at;
  cool_down = b.cool_down;
  errors = b.consecutive_error_count;
  successes = b.consecutive_success_count;
  admitted = b.half_open_admit;
}

abbrev pub shown : ℕ → Option Breaker → Circuit
shown now none = at_rest
shown now (some b) = if reached now b.expires_at then at_rest else circuit_of b

unfoldable pub observe : String → ℕ → States → Circuit
observe name now states = shown now (lookup name states)

pub data Operation : Type 0 where
  acquire : Operation
  outcome : Bool → Operation
  force : CircuitState → Option ℕ → Operation

pub data Reply : Type 0 where
  admission : Bool → Reply
  report : Snapshot → Reply
  nothing : Reply

unfoldable pub exec : Strategy → ℕ → Operation → States → Reply × States
exec s now acquire states = let (ok, states') = try_acquire s now states in (admission ok, states')
exec s now (outcome success) states =
    let (snapshot, states') = record_outcome s now success states in (report snapshot, states')
exec s now (force desired cool_down) states = (nothing, transition s desired cool_down now states)

-- The specification.
abbrev pub report_of : Circuit → Snapshot
report_of c = record {
  state = c.state;
  opened_at = c.opened_at;
  consecutive_error_count = c.errors;
  consecutive_success_count = c.successes;
}

abbrev probe : Config → Circuit → Reply × Circuit
probe cfg c =
    if ltb c.admitted cfg.half_open_capacity
    then (admission true, record c { admitted = c.admitted + 1 })
    else (admission false, c)

abbrev trial : Circuit
trial = record at_rest { state = half_open }

abbrev pub tripped : ℕ → ℕ → Circuit
tripped now cool_down = record at_rest {
  state = open_circuit;
  opened_at = now;
  cool_down = cool_down;
}

abbrev step_acquire : Config → ℕ → CircuitState → Circuit → Reply × Circuit
step_acquire cfg now closed c = (admission true, c)
step_acquire cfg now forced_closed c = (admission true, c)
step_acquire cfg now forced_open c = (admission false, c)
step_acquire cfg now open_circuit c =
    if ltb now (c.opened_at + c.cool_down) then (admission false, c) else probe cfg trial
step_acquire cfg now half_open c = probe cfg c

abbrev succeed : Config → CircuitState → Circuit → Circuit
succeed cfg closed c = record c { successes = c.successes + 1; errors = 0 }
succeed cfg half_open c =
    if leb cfg.success_threshold (c.successes + 1)
    then at_rest
    else record c { successes = c.successes + 1; errors = 0; admitted = c.admitted - 1 }
succeed cfg _ c = c

abbrev count_error : Config → ℕ → Circuit → ℕ → Circuit
count_error cfg now c admitted =
    if leb cfg.error_threshold (c.errors + 1)
    then tripped now cfg.reset_timeout
    else record c { errors = c.errors + 1; successes = 0; admitted = admitted }

abbrev fail : Config → ℕ → CircuitState → Circuit → Circuit
fail cfg now closed c = count_error cfg now c c.admitted
fail cfg now half_open c = count_error cfg now c (c.admitted - 1)
fail cfg now _ c = c

abbrev forced : Config → ℕ → CircuitState → Option ℕ → Circuit
forced cfg now open_circuit none = tripped now cfg.reset_timeout
forced cfg now open_circuit (some cool_down) = tripped now cool_down
forced cfg now desired cool_down = record at_rest { state = desired }

unfoldable pub step : Config → ℕ → Operation → Circuit → Reply × Circuit
step cfg now acquire c = step_acquire cfg now c.state c
step cfg now (outcome true) c = let c' = succeed cfg c.state c in (report (report_of c'), c')
step cfg now (outcome false) c = let c' = fail cfg now c.state c in (report (report_of c'), c')
step cfg now (force desired cool_down) c = (nothing, forced cfg now desired cool_down)

-- A forced state has no deadline.
abbrev pub Held : CircuitState → Deadline → Type 0
Held forced_open d = d ≡ never
Held forced_closed d = d ≡ never
Held _ d = Unit

abbrev pub IsHeld : Option Breaker → Type 0
IsHeld none = Unit
IsHeld (some b) = Held b.state b.expires_at

pub cull_from_own :
    (own : String) (now n : ℕ) (items states : States)
    → lookup own (cull_from own now n items states) ≡ lookup own states
unfolding cull_from
cull_from_own own now n [] states = refl
cull_from_own own now n ((name, b) ∷ items) states = ground (
  arith,
  cull_from_own own now (n + 1) items (remove name states),
  cull_from_own own now n items states,
  lookup-remove name own states,
)

-- `_live` shows the same circuit, in the entry that it returns and in the store.
pub lookup-live :
    (s : Strategy) (now : ℕ) (states : States)
    → (lookup s.name (live s now states).1 ≡ some (live s now states).0)
      × (circuit_of (live s now states).0 ≡ shown now (lookup s.name states))
      × (reached now (live s now states).0.expires_at ≡ false)
unfolding live
lookup-live s now states = ground (
  arith,
  cull_from_own s.name now 0 (insert s.name (fresh now) states) (insert s.name (fresh now) states),
  lookup-insert_self s.name (fresh now) states,
)
