-- ===== src/Circuit/Probe.antt =====
-- The circuit of circuitbreaker/memory.py while it is open, and the probes that it admits then.
use grelmicro.Prelude.{
  ℕ, suc, ◌+◌, ◌<◌, ◌≤◌, ◌≡◌, refl, true, false, some, String, List, [], ◌∷◌, arith, string_eq,
  Bool-cases, inl, inr, min, ◌-◌, length, if◌then◌else◌, ltb,
}
use grelmicro.Dict.{lookup, lookup-insert_self}
use grelmicro.Circuit.{
  half_open, state_ttl, Breaker, snapshot_of, Config, Strategy, bind, States, fresh, live,
  try_acquire, record_outcome, resolve_state_ttl,
}
use grelmicro.Circuit.Observe.{
  Operation, acquire, outcome, force, exec, Reply, admission, report, nothing,
}
use grelmicro.Circuit.Trip.{opened}

-- The replies of a run, and the store that it leaves.
pub trace : Strategy → List (ℕ × Operation) → States → List Reply × States
trace s [] states = ([], states)
trace s ((now, op) ∷ ops) states =
    let (reply, states') = exec s now op states in
    let (replies, last) = trace s ops states' in (reply ∷ replies, last)

-- Calls and outcomes before the given time, with no manual transition.
abbrev pub AreAutomatic : ℕ → List (ℕ × Operation) → Type 0
AreAutomatic end [] = Unit
AreAutomatic end ((now, acquire) ∷ ops) = (now < end) × AreAutomatic end ops
AreAutomatic end ((now, outcome success) ∷ ops) = (now < end) × AreAutomatic end ops
AreAutomatic end ((now, force desired cool_down) ∷ ops) = ⊥

abbrev pub refusal : Breaker → Operation → Reply
refusal b acquire = admission false
refusal b (outcome success) = report (snapshot_of b)
refusal b (force desired cool_down) = nothing

abbrev pub refusals : Breaker → List (ℕ × Operation) → List Reply
refusals b [] = []
refusals b ((now, op) ∷ ops) = refusal b op ∷ refusals b ops

abbrev pub IsBetween : ℕ → ℕ → List ℕ → Type 0
IsBetween start end [] = Unit
IsBetween start end (t ∷ times) = (start ≤ t) × (t < end) × IsBetween t end times

-- How many of the calls at the given times are admitted.
unfoldable pub admissions : Strategy → List ℕ → States → ℕ
admissions s [] states = 0
admissions s (now ∷ times) states =
    let (ok, states') = try_acquire s now states in
    (if ok then 1 else 0) + admissions s times states'

IsBetween-earlier :
    (start start' end : ℕ) (times : List ℕ)
    → start ≤ start'
    → IsBetween start' end times
    → IsBetween start end times
IsBetween-earlier start start' end [] h b = tt
IsBetween-earlier start start' end (t ∷ times) h b = ground arith

abbrev pub probing : ℕ → ℕ → Breaker
probing k since = record (fresh since) { state = half_open; half_open_admit = k }

module _ (name : String) (cfg : Config) where
  le-timeout_ttl : (t : ℕ) → t ≤ resolve_state_ttl t
  unfolding resolve_state_ttl
  le-timeout_ttl t = omega arith

  exec_open :
      (t now : ℕ) (op : Operation) (states : States)
      → lookup name states ≡ some (opened cfg t)
      → AreAutomatic (t + cfg.reset_timeout) ((now, op) ∷ [])
      → exec (bind name cfg) now op states ≡ (refusal (opened cfg t) op, states)
  unfolding exec try_acquire record_outcome live bind
  exec_open t now acquire states e h = ground (arith, le-timeout_ttl cfg.reset_timeout)
  exec_open t now (outcome success) states e h = ground (arith, le-timeout_ttl cfg.reset_timeout)
  exec_open t now (force desired cool_down) states e h = absurd h

  -- A circuit that tripped at `t` refuses every call, and ignores every outcome, until
  -- `reset_timeout` has passed: whatever calls and outcomes come before that, in whatever order,
  -- the replies are refusals and the store is as it was.
  pub trace_open :
      (t : ℕ) (ops : List (ℕ × Operation)) (states : States)
      → lookup name states ≡ some (opened cfg t)
      → AreAutomatic (t + cfg.reset_timeout) ops
      → trace (bind name cfg) ops states ≡ (refusals (opened cfg t) ops, states)
  unfolding trace
  trace_open t [] states e h = refl
  trace_open t ((now, acquire) ∷ ops) states e h =
      rw (exec_open t now acquire states e (h.0, tt), trace_open t ops states e h.1)
  trace_open t ((now, outcome success) ∷ ops) states e h =
      rw (exec_open t now (outcome success) states e (h.0, tt), trace_open t ops states e h.1)
  trace_open t ((now, force desired cool_down) ∷ ops) states e h = absurd h

  probe_room :
      (k since now : ℕ) (states : States)
      → lookup name states ≡ some (probing k since)
      → now < since + state_ttl
      → k < cfg.half_open_capacity
      → ((try_acquire (bind name cfg) now states).0 ≡ true)
        × (lookup name (try_acquire (bind name cfg) now states).1 ≡ some (probing (suc k) now))
  unfolding try_acquire bind
  probe_room k since now states e p room = grind (arith, lookup-insert_self)

  probe_full :
      (k since now : ℕ) (states : States)
      → lookup name states ≡ some (probing k since)
      → now < since + state_ttl
      → cfg.half_open_capacity ≤ k
      → ((try_acquire (bind name cfg) now states).0 ≡ false)
        × (lookup name (try_acquire (bind name cfg) now states).1 ≡ some (probing k since))
  unfolding try_acquire bind
  probe_full k since now states e p full = grind (arith, lookup-insert_self)

  pub probe_first :
      (t now : ℕ) (states : States)
      → lookup name states ≡ some (opened cfg t)
      → t + cfg.reset_timeout ≤ now
      → now < t + resolve_state_ttl cfg.reset_timeout
      → 0 < cfg.half_open_capacity
      → ((try_acquire (bind name cfg) now states).0 ≡ true)
        × (lookup name (try_acquire (bind name cfg) now states).1 ≡ some (probing 1 now))
  unfolding try_acquire bind
  probe_first t now states e late soon room = grind (arith, lookup-insert_self)

  admissions-probing :
      (k since end : ℕ) (times : List ℕ) (states : States)
      → lookup name states ≡ some (probing k since)
      → k ≤ cfg.half_open_capacity
      → end ≤ since + state_ttl
      → IsBetween since end times
      → admissions (bind name cfg) times states ≡ min (length times) (cfg.half_open_capacity - k)
  unfolding admissions
  admissions-probing k since end [] states e h p between = omega arith
  admissions-probing k since end (now ∷ times) states e h p (late, soon, rest) =
      elim (Bool-cases (ltb k cfg.half_open_capacity)) [
        | inl room ↦ ground (
          arith,
          probe_room k since now states e,
          admissions-probing (suc k) now end times (try_acquire (bind name cfg) now states).1,
        )
        | inr full ↦ ground (
          arith,
          probe_full k since now states e,
          admissions-probing k since end times (try_acquire (bind name cfg) now states).1,
          IsBetween-earlier since now end times late rest,
        )
      ]

  -- After the cool-down of a circuit that tripped at `t`, the calls of a row at ascending times,
  -- less than a day after the first, with no outcome recorded, are admitted up to
  -- `half_open_capacity` and no further.
  pub admissions-eq-min :
      (t first : ℕ) (times : List ℕ) (states : States)
      → lookup name states ≡ some (opened cfg t)
      → t + cfg.reset_timeout ≤ first
      → first < t + resolve_state_ttl cfg.reset_timeout
      → 0 < cfg.half_open_capacity
      → IsBetween first (first + state_ttl) times
      → admissions (bind name cfg) (first ∷ times) states
        ≡ min (length (first ∷ times)) cfg.half_open_capacity
  unfolding admissions
  admissions-eq-min t first times states e late soon room between = ground (
    arith,
    probe_first t first states e late soon room,
    admissions-probing 1 first (first + state_ttl) times
        (try_acquire (bind name cfg) first states).1,
  )
