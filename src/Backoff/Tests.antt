-- ===== src/Backoff/Tests.antt =====
-- Runs of the backoff strategies, and their theorems at concrete inputs.
use grelmicro.Prelude.{◌≡◌, refl, [], ◌∷◌}
use grelmicro.Backoff.{
  FibonacciBackoff, ExponentialBackoff, equal, fibonacci, fibonacci_delay, advance, delays,
}

abbrev deferred : FibonacciBackoff
deferred = record { base_delay = 2; max_delay = 12 }

abbrev payments : ExponentialBackoff
payments = record { base_delay = 2; max_delay = 20; jitter = equal }

deferred-delays :
    delays (fibonacci_delay deferred) 7 1 fibonacci ≡ 2 ∷ 2 ∷ 4 ∷ 6 ∷ 10 ∷ 12 ∷ 12 ∷ []
unfolding delays fibonacci_delay advance
deferred-delays = refl
