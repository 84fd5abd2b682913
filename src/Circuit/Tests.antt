-- ===== src/Circuit/Tests.antt =====
-- Runs of the circuit breaker, and its theorems at concrete inputs.
use grelmicro.Prelude.{
  ℕ, ◌≡◌, ◌≢◌, refl, true, false, some, String, List, [], ◌∷◌, arith, string_eq, eq_iff,
}
use grelmicro.Dict.{lookup, insert, Unique}
use grelmicro.Circuit.{
  half_open, Config, Strategy, bind, States, try_acquire, record_outcome, live, cull_from,
}
use grelmicro.Circuit.Observe.{Operation, acquire, outcome, exec, observe}
use grelmicro.Circuit.Refine.{Refines, exec-Refines}
use grelmicro.Circuit.Invariant.{IsValid, run, run-IsValid}
use grelmicro.Circuit.Isolation.{observe-exec_ne}
use grelmicro.Circuit.Trip.{opened}
use grelmicro.Circuit.Front.{Breaker, init}

abbrev config : Config
config = record {
  error_threshold = 2;
  success_threshold = 2;
  reset_timeout = 30000000;
  half_open_capacity = 1;
}

abbrev payments : Strategy
payments = bind "payments" config

abbrev failing : States
failing = ("payments", opened config 5) ∷ []

-- The second failure trips the circuit; after the cool-down one probe is out, and no more.
abbrev story : List (ℕ × Operation)
story =
    (1, acquire) ∷ (4, outcome false) ∷ (5, outcome false) ∷ (6, acquire) ∷ (30000005, acquire) ∷ []

story_trial : (observe "payments" 30000006 (run payments story [])).state ≡ half_open
unfolding observe run exec try_acquire record_outcome live bind lookup insert cull_from
story_trial = refl

abbrev breaker : Breaker
breaker = record (init "payments" config) { strategy = some payments }

exec-Refines_example : Refines payments 7 (outcome false) failing
unfolding lookup
exec-Refines_example = exec-Refines "payments" config 7 (outcome false) failing tt

run-IsValid_example : IsValid "payments" config (run payments story [])
unfolding lookup
run-IsValid_example = run-IsValid "payments" config (omega arith) story [] tt

billing_ne : ◌≢◌ {A = String} "billing" "payments"
billing_ne p = cc ((eq_iff "billing" "payments").1 p)

observe-exec_ne_example :
    (observe "billing" 7 (exec payments 7 (outcome true) failing).1 ≡ observe "billing" 7 failing)
    × Unique (exec payments 7 (outcome true) failing).1
unfolding lookup bind
observe-exec_ne_example =
    observe-exec_ne payments "billing" 7 failing billing_ne (outcome true) (refl, tt)
