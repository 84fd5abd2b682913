-- ===== src/Retry/Tests.antt =====
-- Runs of the retry loops, and their theorems at concrete inputs.
use grelmicro.Prelude.{
  ℕ, suc, ◌+◌, ◌<◌, ◌≡◌, refl, Bool, true, false, some, [], ◌∷◌, arith, ltb, if◌then◌else◌,
}
use grelmicro.Backoff.{delays, linear_delay}
use grelmicro.Retry.{
  Outcome, returned, raised, cancelled, exhausted, value, error, failure, success, RetryConfig, run,
  is_over,
}
use grelmicro.Retry.Block.{iterate}
use grelmicro.Retry.Block.Equal.{on_exceptions, uncounted, iterate-run}
use grelmicro.Retry.Runs.{is_retried, IsLast, ending_at, run_lem}

abbrev config : RetryConfig
config = record { attempts = 3; max_seconds = some 60 }

-- Each Exception is retried, and no result.
abbrev matcher : Outcome ℕ ℕ → Bool
matcher (returned v) = false
matcher (raised e) = true
matcher (cancelled e) = true

abbrev strategy : ℕ → ℕ → ℕ × ℕ
strategy number s = (linear_delay (record { base_delay = 2; max_delay = 30 }) number, s)

-- Fails until the call with this number.
abbrev call : ℕ → ℕ → Outcome ℕ ℕ
call k number = if ltb number k then raised number else returned 7

abbrev elapsed : ℕ → ℕ
elapsed number = number

run_recovers :
    run config matcher strategy (call 3) elapsed 0
    ≡ record { result = value 7; counted = some success; calls = 3; slept = 2 ∷ 4 ∷ [] }
unfolding run
run_recovers = refl

run_exhausted : run config matcher strategy (call 9) elapsed 0 ≡ record {
  result = error 3 (some (exhausted 3));
  counted = some failure;
  calls = 3;
  slept = 2 ∷ 4 ∷ [];
}
unfolding run
run_exhausted = refl

run_lem_example :
    (j : ℕ) × ((j < 3)
      × (IsLast config matcher strategy (call 3) elapsed 1 j
          × (run config matcher strategy (call 3) elapsed 0
              ≡ ending_at config matcher strategy
                  (call 3)
                  elapsed
                  (1 + j)
                  (suc j)
                  (delays strategy j 1 0))))
run_lem_example = run_lem config matcher strategy (call 3) elapsed 0 (omega arith)

all_retried :
    (i : ℕ)
    → i < 2
    → (is_retried config matcher strategy (call 3) elapsed (call 3 (1 + i)) ≡ true)
      × (is_over (some 60) (elapsed (1 + i)) ≡ false)
all_retried i lt = ground arith

iterate-run_example :
    iterate config matcher strategy (call 3) elapsed 0
    ≡ uncounted config matcher strategy (call 3) elapsed (
        run config
          (on_exceptions config matcher strategy (call 3) elapsed)
          strategy
          (call 3)
          elapsed
          0)
iterate-run_example = iterate-run config matcher strategy (call 3) elapsed 0
