-- ===== src/Health.antt =====
-- `HealthChecks` of health/_checks.py: the registry of checks, the result of one, the cache, and the
-- report. Names are texts; the readings of `monotonic()` and the durations are in microseconds.
pub mod Report
pub mod Flight
pub mod Cache
mod Tests
use grelmicro.Prelude.{
  ℕ, ◌+◌, ◌-◌, ◌≤◌, ◌<◌, ◌≡◌, ◌↔◌, refl, Bool, true, false, not, ◌&&◌, ◌||◌, Option, none, some,
  String, List, [], ◌∷◌, leb, ltb, nat_beq, if◌then◌else◌, length, contains, Eq, ◌==◌, arith,
  nat_beq_iff,
}
use grelmicro.Dict.{Dict, lookup, insert}
use grelmicro.Text.{Text, is_digit}

pub text_beq : Text → Text → Bool
text_beq [] [] = true
text_beq [] (d ∷ t) = false
text_beq (c ∷ s) [] = false
text_beq (c ∷ s) (d ∷ t) = nat_beq c d && text_beq s t

pub text_beq_iff : (s t : Text) → (text_beq s t ≡ true) ↔ (s ≡ t)
unfolding text_beq
text_beq_iff [] [] = ground arith
text_beq_iff [] (d ∷ t) = ground arith
text_beq_iff (c ∷ s) [] = ground arith
text_beq_iff (c ∷ s) (d ∷ t) = ground (arith, text_beq_iff s t, nat_beq_iff c d)

instance abbrev pub text_eq : Eq Text
text_eq = record { test = text_beq; agrees = text_beq_iff }

pub data HealthStatus : Type 0 where
  ok error : HealthStatus

abbrev pub Details : Type 0
Details = Dict String String

-- The text of `CheckResult.error`, by what it is made of.
pub data Cause : Type 0 where
  timed_out : Text → ℕ → Cause
  reported : String → Cause
  unexpected : String → String → Cause

pub record CheckResult : Type 0 where
  pub status : HealthStatus
  pub critical : Bool
  pub cause : Option Cause
  pub details : Option Details

-- `_Entry`, without its function and the event of a run in flight.
pub record Entry : Type 0 where
  pub name : Text
  pub critical : Bool
  pub timeout : ℕ
  pub cached_result : Option CheckResult
  pub cached_at : ℕ

-- What a check does: it returns, runs past its timeout, raises `HealthError`, or another exception of
-- a type and a text.
pub data Outcome : Type 0 where
  returns : Option Details → Outcome
  times_out : Outcome
  unhealthy : String → Option Details → Outcome
  raises : String → String → Outcome

unfoldable pub run_check_inner : Entry → Outcome → CheckResult
run_check_inner e (returns d) = record {
  status = ok;
  critical = e.critical;
  cause = none;
  details = d;
}
run_check_inner e times_out = record {
  status = error;
  critical = e.critical;
  cause = some (timed_out e.name e.timeout);
  details = none;
}
run_check_inner e (unhealthy text d) = record {
  status = error;
  critical = e.critical;
  cause = some (reported text);
  details = d;
}
run_check_inner e (raises type text) = record {
  status = error;
  critical = e.critical;
  cause = some (unexpected type text);
  details = none;
}

-- `_NAME_MAX_LEN`, `_NAME_PATTERN`
abbrev pub name_max_len : ℕ
name_max_len = 64

abbrev pub starts_name : ℕ → Bool
starts_name c = (leb 97 c && leb c 122) || is_digit c

abbrev pub continues_name : ℕ → Bool
continues_name c = starts_name c || (nat_beq c 58 || (nat_beq c 95 || nat_beq c 45))

-- `$` also matches before a newline at the end.
unfoldable pub matches_rest : Text → Bool
matches_rest [] = true
matches_rest (c ∷ []) = continues_name c || nat_beq c 10
matches_rest (c ∷ d ∷ s) = continues_name c && matches_rest (d ∷ s)

unfoldable pub matches_name : Text → Bool
unfolding matches_rest
matches_name [] = false
matches_name (c ∷ s) = starts_name c && matches_rest s

-- The order of `sorted` on names.
pub text_leb : Text → Text → Bool
text_leb [] t = true
text_leb (c ∷ s) [] = false
text_leb (c ∷ s) (d ∷ t) = ltb c d || (nat_beq c d && text_leb s t)

abbrev pub Entries : Type 0
Entries = Dict Text Entry

unfoldable pub place : Text → Entry → Entries → Entries
unfolding text_leb
place k e [] = (k, e) ∷ []
place k e ((j, f) ∷ entries) =
    let rest = place k e entries in
    if text_leb k j then (k, e) ∷ (j, f) ∷ entries else (j, f) ∷ rest

unfoldable pub sort : Entries → Entries
unfolding place
sort [] = []
sort ((k, e) ∷ entries) = place k e (sort entries)

pub data Added : Type 0 where
  invalid_name already_registered : Added
  added : Entries → Added

abbrev pub timeout_or : ℕ → Option ℕ → ℕ
timeout_or default none = default
timeout_or default (some t) = t

abbrev pub new_entry : Text → Bool → ℕ → Entry
new_entry name critical timeout = record {
  name = name;
  critical = critical;
  timeout = timeout;
  cached_result = none;
  cached_at = 0;
}

-- `HealthChecks.add`, by the timeout of the configuration.
unfoldable pub add : ℕ → Text → Bool → Option ℕ → Entries → Added
unfolding matches_name sort lookup
add default name critical timeout entries =
    if ltb name_max_len (length name) || not (matches_name name)
    then invalid_name
    else elim (lookup name entries) [
      | some e ↦ already_registered
      | none ↦
          added (sort (insert name (new_entry name critical (timeout_or default timeout)) entries))
    ]

-- A result of the cache that a run at `now` may use.
abbrev pub fresh : ℕ → ℕ → ℕ → Option CheckResult → Option CheckResult
fresh ttl now cached_at none = none
fresh ttl now cached_at (some r) = if ltb 0 ttl && ltb (now - cached_at) ttl then some r else none

-- What a check does in a round, and the readings before and after.
pub record Attempt : Type 0 where
  pub now : ℕ
  pub later : ℕ
  pub outcome : Outcome

-- `_get_or_run`, where no run of the check is under way and its own is not cancelled. Health.Flight has
-- the loop with the runs of other rounds.
unfoldable pub get_or_run : ℕ → Attempt → Entry → CheckResult × Entry
unfolding run_check_inner
get_or_run ttl a e = elim (fresh ttl a.now e.cached_at e.cached_result) [
  | some r ↦ (r, e)
  | none ↦ (
    run_check_inner e a.outcome,
    record e { cached_result = some (run_check_inner e a.outcome); cached_at = a.later },
  )
]

-- `_aggregate_status`
unfoldable pub aggregate_status : List (Text × CheckResult) → HealthStatus
aggregate_status [] = ok
aggregate_status ((name, r) ∷ results) =
    let rest = aggregate_status results in
    elim r.status [ ok ↦ rest | error ↦ if r.critical then error else rest ]

abbrev pub is_selected : Bool → List Text → Text → Entry → Bool
is_selected critical_only excluded name e =
    not (contains excluded name) && (not critical_only || e.critical)

-- The results of a round, and the entries that it leaves.
unfoldable pub run_entries :
    Bool → List Text → ℕ → (Text → Attempt) → Entries → List (Text × CheckResult) × Entries
unfolding get_or_run contains
run_entries critical_only excluded ttl attempt [] = ([], [])
run_entries critical_only excluded ttl attempt ((name, e) ∷ entries) =
    let (results, rest) = run_entries critical_only excluded ttl attempt entries in
    let (r, e') = get_or_run ttl (attempt name) e in
    if is_selected critical_only excluded name e
    then ((name, r) ∷ results, (name, e') ∷ rest)
    else (results, (name, e) ∷ rest)

pub record HealthReport : Type 0 where
  pub status : HealthStatus
  pub checks : List (Text × CheckResult)

-- `HealthChecks.run`; an empty selection has the status that `aggregate_status` gives to no results.
unfoldable pub run : Bool → List Text → ℕ → (Text → Attempt) → Entries → HealthReport × Entries
unfolding run_entries aggregate_status
run critical_only excluded ttl attempt entries =
    let (results, rest) = run_entries critical_only excluded ttl attempt entries in
    (record { status = aggregate_status results; checks = results }, rest)
