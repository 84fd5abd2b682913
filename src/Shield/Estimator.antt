-- ===== src/Shield/Estimator.antt =====
-- `_TimeoutEstimator` of resilience/shield/_timeout_estimator.py. A latency is a whole number of
-- ticks; a timeout is a whole number of half ticks, since the estimate is 2.5 latencies.
pub mod Rank
pub mod Lists
pub mod Ring
pub mod Latest
use grelmicro.Prelude.{
  ℕ, zero, suc, ◌+◌, ◌-◌, ◌*◌, ◌/◌, ◌%◌, min, max, Bool, Option, none, some, List, [], ◌∷◌, leb,
  ltb, if◌then◌else◌, take, nat_beq,
}

-- _WINDOW
abbrev pub slots : ℕ
slots = 32

pub record TimeoutEstimator : Type 0 where
  pub initial_timeout : ℕ
  pub clamp_min : ℕ
  pub clamp_max : ℕ
  pub buffer : List ℕ
  pub index : ℕ
  pub count : ℕ

unfoldable pub zeros : ℕ → List ℕ
zeros zero = []
zeros (suc n) = 0 ∷ zeros n

-- The constructor, where it does not raise ValueError.
unfoldable pub init : ℕ → ℕ → ℕ → TimeoutEstimator
init initial_timeout clamp_min clamp_max = record {
  initial_timeout = initial_timeout;
  clamp_min = clamp_min;
  clamp_max = clamp_max;
  buffer = zeros slots;
  index = 0;
  count = 0;
}

-- `buffer[i] = x`
unfoldable pub put : ℕ → ℕ → List ℕ → List ℕ
put i x [] = []
put zero x (y ∷ ys) = x ∷ ys
put (suc i) x (y ∷ ys) = y ∷ put i x ys

-- `record`; none is a latency that is negative or not finite.
unfoldable pub record_latency : Option ℕ → TimeoutEstimator → TimeoutEstimator
record_latency none e = e
record_latency (some latency) e = record e {
  buffer = put e.index latency e.buffer;
  index = (e.index + 1) % slots;
  count = if ltb e.count slots then e.count + 1 else e.count;
}

unfoldable pub place : ℕ → List ℕ → List ℕ
place x [] = x ∷ []
place x (y ∷ ys) = if leb x y then x ∷ y ∷ ys else y ∷ place x ys

unfoldable pub sorted : List ℕ → List ℕ
sorted [] = []
sorted (x ∷ xs) = place x (sorted xs)

-- xs[i]; the index is always in range.
unfoldable pub get_elem : List ℕ → ℕ → ℕ
get_elem [] i = 0
get_elem (x ∷ xs) zero = x
get_elem (x ∷ xs) (suc i) = get_elem xs i

-- `max(0, ceil(0.95 * n) - 1)`, then at most `n - 1`
abbrev pub rank : ℕ → ℕ
rank n = min ((19 * n + 19) / 20 - 1) (n - 1)

unfoldable pub clamp : TimeoutEstimator → ℕ → ℕ
clamp e value =
    if ltb value e.clamp_min
    then e.clamp_min
    else if ltb e.clamp_max value
    then e.clamp_max
    else value

unfoldable pub p95 : TimeoutEstimator → ℕ
p95 e = get_elem (sorted (take e.count e.buffer)) (rank e.count)

unfoldable pub estimate : TimeoutEstimator → ℕ
unfolding p95
estimate e = if nat_beq e.count 0 then clamp e e.initial_timeout else clamp e (5 * p95 e)
