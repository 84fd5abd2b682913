-- ===== src/Health/Tests.antt =====
-- The runs and the witnesses of the health checks of health/_checks.py.
use grelmicro.Prelude.{
  ℕ, ◌+◌, ◌-◌, ◌*◌, ◌≤◌, ◌≡◌, refl, true, false, none, some, List, [], ◌∷◌, arith, contains,
}
use grelmicro.Dict.{lookup, insert}
use grelmicro.Text.{Text}
use grelmicro.Health.{
  text_eq, text_beq, text_leb, ok, matches_name, matches_rest, returns, times_out, new_entry, add,
  sort, place, Attempt, get_or_run, run_check_inner, aggregate_status, run_entries, run,
}
use grelmicro.Health.Report.{Op, adds, runs, play, plays, run_ok}
use grelmicro.Health.Flight.{
  Event, asks, finishes, cancels, idle, ask, finish, cancel, executions, happens,
}
use grelmicro.Health.Cache.{executions_bounded}

-- "db" and "mq"
abbrev db : Text
db = 100 ∷ 98 ∷ []

abbrev mq : Text
mq = 109 ∷ 113 ∷ []

-- The database answers, the queue does not.
abbrev attempt_at : ℕ → Text → Attempt
attempt_at now name = record {
  now = now;
  later = now + 2;
  outcome = elim (text_beq name db) [ true ↦ returns none | false ↦ times_out ];
}

abbrev registry : List Op
registry = adds 5 mq false none ∷ adds 5 db true (some 3) ∷ runs false [] 10 (attempt_at 1) ∷ []

run_ok_example :
    (lookup db (run false [] 10 (attempt_at 5) (plays registry [])).0.checks
      ≡ some (record { status = ok; critical = true; cause = none; details = none }))
    × (ok ≡ ok)
unfolding plays play add sort place insert lookup run run_entries get_or_run run_check_inner
    aggregate_status contains text_beq text_leb matches_name matches_rest
run_ok_example =
    run_ok registry false [] 10 (attempt_at 5) db
      (record {
        name = db;
        critical = true;
        timeout = 3;
        cached_result =
            some (record { status = ok; critical = true; cause = none; details = none });
        cached_at = 3;
      })
      refl refl refl refl

-- Two rounds ask at once and one of them leads; a third one finds its result; the run that the fourth
-- one leads is cancelled, and the fifth one takes the lead.
abbrev rounds : List Event
rounds =
    asks 1
    ∷ asks 2
    ∷ finishes (returns none) 3
    ∷ asks 5
    ∷ asks 14
    ∷ cancels 15
    ∷ asks 16
    ∷ finishes times_out 18
    ∷ []

two_executions : executions 10 rounds (idle (new_entry db true 3)) ≡ 2
unfolding executions ask finish cancel run_check_inner
two_executions = refl

executions_bounded_example :
    (2 * 10 ≤ 10 + (20 - 0)) × ((happens 10 rounds (idle (new_entry db true 3))).running ≤ 1)
unfolding executions ask finish cancel run_check_inner
executions_bounded_example = executions_bounded 10 0 20 rounds db true 3 (ground arith) (
  ground arith,
  (
    ground arith,
    (
      ground arith,
      (ground arith, (ground arith, (ground arith, (ground arith, (ground arith, ground arith))))),
    ),
  ),
)

-- A name with a newline at its end is taken, although it is not of the charset.
newline_at_end : matches_name (100 ∷ 98 ∷ 10 ∷ []) ≡ true
unfolding matches_name matches_rest
newline_at_end = refl

newline_inside : matches_name (100 ∷ 10 ∷ 98 ∷ []) ≡ false
unfolding matches_name matches_rest
newline_inside = refl
