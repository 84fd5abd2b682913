-- ===== src/Health/Flight.antt =====
-- The single flight of `_get_or_run` in health/_checks.py: rounds that ask for one check at the same
-- time, the run that one of them leads, and its end.
use grelmicro.Prelude.{
  ℕ, ◌+◌, ◌-◌, ◌≤◌, ◌≡◌, refl, Bool, true, false, Option, none, some, List, [], ◌∷◌, leb,
  if◌then◌else◌,
}
use grelmicro.Health.{CheckResult, Entry, Outcome, fresh, Attempt, get_or_run, run_check_inner}

-- The entry, whether it has an event in `inflight`, and how many runs of its check are under way.
pub record Flight : Type 0 where
  pub entry : Entry
  pub inflight : Bool
  pub running : ℕ

abbrev pub idle : Entry → Flight
idle e = record { entry = e; inflight = false; running = 0 }

-- A pass of the loop of `_get_or_run`: it returns a cached result, waits for the event, or takes the
-- lead and runs the check.
pub data Asked : Type 0 where
  answers : CheckResult → Asked
  waits leads : Asked

unfoldable pub ask : ℕ → ℕ → Flight → Asked × Flight
ask ttl now f = elim (fresh ttl now f.entry.cached_at f.entry.cached_result) [
  | some r ↦ (answers r, f)
  | none ↦
      if f.inflight
      then (waits, f)
      else (leads, record f { inflight = true; running = f.running + 1 })
]

abbrev pub cached : Outcome → ℕ → Entry → Entry
cached outcome later e = record e {
  cached_result = some (run_check_inner e outcome);
  cached_at = later;
}

-- A run ends, with its result stored; or it is cancelled.
unfoldable pub finish : Outcome → ℕ → Flight → Flight
finish outcome later f = record {
  entry = cached outcome later f.entry;
  inflight = false;
  running = f.running - 1;
}

unfoldable pub cancel : Flight → Flight
cancel f = record f { inflight = false; running = f.running - 1 }

-- `get_or_run` is a pass that finds no run under way, with its run if it leads.
abbrev pub alone : Attempt → Entry → Asked × Flight → CheckResult × Entry
alone a e (answers r, f) = (r, f.entry)
alone a e (waits, f) = (run_check_inner e a.outcome, f.entry)
alone a e (leads, f) = (run_check_inner e a.outcome, (finish a.outcome a.later f).entry)

pub get_or_run-ask :
    (ttl : ℕ) (a : Attempt) (e : Entry) (o : Option CheckResult)
    → fresh ttl a.now e.cached_at e.cached_result ≡ o
    → get_or_run ttl a e ≡ alone a e (ask ttl a.now (idle e))
unfolding get_or_run ask finish
get_or_run-ask ttl a e none q = rw (q, get_or_run, ask) refl
get_or_run-ask ttl a e (some r) q = rw (q, get_or_run, ask) refl

-- A round asks, or asks again after it has waited; a run ends; a run is cancelled.
pub data Event : Type 0 where
  asks : ℕ → Event
  finishes : Outcome → ℕ → Event
  cancels : ℕ → Event

abbrev pub time : Event → ℕ
time (asks now) = now
time (finishes outcome later) = later
time (cancels now) = now

-- Only a run that is under way ends.
unfoldable pub happen : ℕ → Event → Flight → Flight
unfolding ask finish cancel
happen ttl (asks now) f = (ask ttl now f).1
happen ttl (finishes outcome later) f = if leb f.running 0 then f else finish outcome later f
happen ttl (cancels now) f = if leb f.running 0 then f else cancel f

-- The runs that end with a result.
abbrev pub ended : Event → Flight → ℕ
ended (asks now) f = 0
ended (finishes outcome later) f = if leb f.running 0 then 0 else 1
ended (cancels now) f = 0

unfoldable pub executions : ℕ → List Event → Flight → ℕ
unfolding happen
executions ttl [] f = 0
executions ttl (e ∷ events) f = ended e f + executions ttl events (happen ttl e f)

unfoldable pub happens : ℕ → List Event → Flight → Flight
unfolding happen
happens ttl [] f = f
happens ttl (e ∷ events) f = happens ttl events (happen ttl e f)

-- The times do not go back.
abbrev pub InOrder : ℕ → List Event → ℕ → Type 0
InOrder start [] end = start ≤ end
InOrder start (e ∷ events) end = (start ≤ time e) × InOrder (time e) events end
