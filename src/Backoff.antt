-- ===== src/Backoff.antt =====
-- The backoff strategies of resilience/backoffs/. A delay is a whole number of a unit of time so
-- small that the configured delays are even, and half of a delay is whole.
pub mod Bounds
mod Tests
use grelmicro.Prelude.{
  ℕ, zero, suc, ◌+◌, ◌-◌, ◌*◌, ◌/◌, ◌%◌, ◌^◌, min, max, List, [], ◌∷◌, leb, if◌then◌else◌,
}

-- `random.uniform(a, b)`, by the number that was drawn.
abbrev pub uniform : ℕ → ℕ → ℕ → ℕ
uniform a b drawn = if leb a b then a + drawn % (b - a + 1) else b + drawn % (a - b + 1)

pub record LinearBackoff : Type 0 where
  pub base_delay : ℕ
  pub max_delay : ℕ

abbrev pub linear_delay : LinearBackoff → ℕ → ℕ
linear_delay config attempt = min (config.base_delay * attempt) config.max_delay

pub record FibonacciBackoff : Type 0 where
  pub base_delay : ℕ
  pub max_delay : ℕ

-- `_FibonacciStrategy`
pub record Fibonacci : Type 0 where
  pub prev_prev : ℕ
  pub prev : ℕ
  pub attempt : ℕ

abbrev pub fibonacci : Fibonacci
fibonacci = record { prev_prev = 0; prev = 1; attempt = 0 }

-- The loop of `delay`, by the number of its rounds.
unfoldable pub advance : ℕ → Fibonacci → Fibonacci
advance zero s = s
advance (suc n) s =
    advance n (record { prev_prev = s.prev; prev = s.prev_prev + s.prev; attempt = suc s.attempt })

unfoldable pub fibonacci_delay : FibonacciBackoff → ℕ → Fibonacci → ℕ × Fibonacci
fibonacci_delay config attempt s =
    let s' = advance (attempt - s.attempt) s in
    (min (config.base_delay * s'.prev_prev) config.max_delay, s')

pub data Jitter : Type 0 where
  no_jitter full equal decorrelated : Jitter

pub record ExponentialBackoff : Type 0 where
  pub base_delay : ℕ
  pub max_delay : ℕ
  pub jitter : Jitter

abbrev pub raw_delay : ExponentialBackoff → ℕ → ℕ
raw_delay config attempt = min (config.base_delay * 2 ^ (attempt - 1)) config.max_delay

abbrev pub jittered : Jitter → ExponentialBackoff → ℕ → ℕ → ℕ → ℕ
jittered no_jitter config raw previous drawn = raw
jittered full config raw previous drawn = uniform 0 raw drawn
jittered equal config raw previous drawn = raw / 2 + uniform 0 (raw / 2) drawn
jittered decorrelated config raw previous drawn =
    min config.max_delay (uniform config.base_delay (previous * 3) drawn)

-- `_ExponentialStrategy.delay`, with `_previous`.
unfoldable pub exponential_delay : ExponentialBackoff → ℕ → ℕ → ℕ → ℕ × ℕ
exponential_delay config attempt drawn previous =
    let delay = jittered config.jitter config (raw_delay config attempt) previous drawn in
    (delay, max delay config.base_delay)

pub record RandomBackoff : Type 0 where
  pub min_delay : ℕ
  pub max_delay : ℕ

abbrev pub random_delay : RandomBackoff → ℕ → ℕ → ℕ
random_delay config attempt drawn = uniform config.min_delay config.max_delay drawn

pub record ConstantBackoff : Type 0 where
  pub delay : ℕ

abbrev pub constant_delay : ConstantBackoff → ℕ → ℕ
constant_delay config attempt = config.delay

-- The delays that a retry loop asks of a strategy with a state, before its retries number
-- `attempt`, `attempt + 1`, and so on.
unfoldable pub delays {ℓ} : {S : Type ℓ} → (ℕ → S → ℕ × S) → ℕ → ℕ → S → List ℕ
delays delay zero attempt s = []
delays delay (suc n) attempt s =
    let (d, s') = delay attempt s in d ∷ delays delay n (attempt + 1) s'
