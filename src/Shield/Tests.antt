-- ===== src/Shield/Tests.antt =====
-- Runs of the retry budget and the estimator, and their theorems at concrete inputs.
use grelmicro.Prelude.{
  ℕ, ◌*◌, ◌≤◌, ◌<◌, ◌≡◌, refl, min, max, Option, none, some, List, [], ◌∷◌, arith, length, take,
}
use grelmicro.Shield.Budget.{
  RetryBudget, Operation, acquire, give_back, granted, try_acquire, refund,
}
use grelmicro.Shield.Estimator.{
  init, estimate, p95, zeros, put, record_latency, place, sorted, get_elem, clamp,
}
use grelmicro.Shield.Estimator.Rank.{at_most, below}
use grelmicro.Shield.Estimator.Ring.{usable, record_all}
use grelmicro.Shield.Estimator.Latest.{estimate-p95}

abbrev budget : RetryBudget
budget = record { capacity = 2; available = 1 }

abbrev retries : List Operation
retries = acquire ∷ acquire ∷ give_back 5 ∷ acquire ∷ acquire ∷ acquire ∷ []

retries-granted : granted retries budget ≡ 3
unfolding granted try_acquire refund
retries-granted = refl

abbrev latencies : List (Option ℕ)
latencies = some 30 ∷ none ∷ some 10 ∷ some 20 ∷ []

estimated : estimate (record_all latencies (init 50 4 200)) ≡ 150
unfolding estimate p95 clamp record_all record_latency init zeros put place sorted get_elem take
estimated = refl

estimate-p95_example :
    (let e = record_all latencies (init 50 4 200) in
      let window = take 32 (usable latencies) in
      (estimate e ≡ min 200 (max 4 (5 * p95 e)))
      × ((19 * length window ≤ 20 * at_most (p95 e) window)
          × (20 * below (p95 e) window < 19 * length window)))
estimate-p95_example = estimate-p95 50 4 200 latencies (omega arith) (omega arith)
