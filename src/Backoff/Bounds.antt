-- ===== src/Backoff/Bounds.antt =====
-- What the delays of resilience/backoffs/ are, and the bounds they keep.
use grelmicro.Prelude.{
  ℕ, zero, suc, ◌+◌, ◌-◌, ◌*◌, ◌/◌, ◌≤◌, ◌≡◌, refl, ap, ◌∙◌, min, max, List, [], ◌∷◌, arith, map,
}
use grelmicro.Backoff.{
  uniform, FibonacciBackoff, Fibonacci, fibonacci, advance, fibonacci_delay, Jitter, no_jitter,
  full, equal, decorrelated, ExponentialBackoff, raw_delay, jittered, exponential_delay, delays,
}
use native.Mathlib.Nat.{mod-lt}

-- The Fibonacci numbers, from fib 1 = fib 2 = 1.
unfoldable pub fib : ℕ → ℕ
fib zero = 0
fib (suc zero) = 1
fib (suc (suc n)) = fib n + fib (suc n)

-- `attempt`, `attempt + 1`, and so on.
abbrev pub from : ℕ → ℕ → List ℕ
from zero attempt = []
from (suc n) attempt = attempt ∷ from n (attempt + 1)

abbrev pub IsFib : Fibonacci → Type 0
IsFib s = (s.prev_prev ≡ fib s.attempt) × (s.prev ≡ fib (suc s.attempt))

advance-IsFib :
    (n : ℕ) (s : Fibonacci)
    → IsFib s
    → IsFib (advance n s) × ((advance n s).attempt ≡ s.attempt + n)
unfolding advance fib
advance-IsFib zero s i = (i, omega arith)
advance-IsFib (suc n) s i =
    let s' : Fibonacci = record {
      prev_prev = s.prev;
      prev = s.prev_prev + s.prev;
      attempt = suc s.attempt;
    } in
    let (i', a) = advance-IsFib n s' (i.1, ground (arith, i)) in (i', omega (arith, a))

module _ (config : FibonacciBackoff) where
  -- The n-th Fibonacci delay.
  abbrev pub capped : ℕ → ℕ
  capped n = min (config.base_delay * fib n) config.max_delay

  fibonacci_delay-IsFib :
      (attempt : ℕ) (s : Fibonacci)
      → IsFib s
      → s.attempt ≤ attempt
      → (let (delay, s') = fibonacci_delay config attempt s in
          (delay ≡ capped attempt) × (IsFib s' × (s'.attempt ≡ attempt)))
  unfolding fibonacci_delay
  fibonacci_delay-IsFib attempt s i le =
      let (i', a) = advance-IsFib (attempt - s.attempt) s i in
      let b : (advance (attempt - s.attempt) s).attempt ≡ attempt = omega (arith, a) in
      (ap (λ x. min (config.base_delay * x) config.max_delay) (i'.0 ∙ ap fib b), (i', b))

  delays-fib_from :
      (n attempt : ℕ) (s : Fibonacci)
      → IsFib s
      → s.attempt ≤ attempt
      → delays (fibonacci_delay config) n attempt s ≡ map capped (from n attempt)
  unfolding delays
  delays-fib_from zero attempt s i le = refl
  delays-fib_from (suc n) attempt s i le =
      let s' = (fibonacci_delay config attempt s).1 in
      let (d, (i', a)) = fibonacci_delay-IsFib attempt s i le in
      let rest = delays-fib_from n (attempt + 1) s' i' (omega (arith, a)) in ground (arith, d, rest)

  -- However many retries follow, the delay before the n-th is the n-th Fibonacci number of base
  -- delays, up to the cap.
  pub delays-fib : (n : ℕ) → delays (fibonacci_delay config) n 1 fibonacci ≡ map capped (from n 1)
  unfolding fib
  delays-fib n = delays-fib_from n 1 fibonacci (refl, refl) (omega arith)

uniform-range : (a b drawn : ℕ) → a ≤ b → (a ≤ uniform a b drawn) × (uniform a b drawn ≤ b)
uniform-range a b drawn le = ground (arith, mod-lt drawn {m = b - a + 1} (omega arith))

module _ (config : ExponentialBackoff) where
  -- The bounds of a delay, by the jitter.
  abbrev pub lowest : Jitter → ℕ → ℕ
  lowest no_jitter raw = raw
  lowest full raw = 0
  lowest equal raw = raw / 2
  lowest decorrelated raw = min config.base_delay config.max_delay

  abbrev pub highest : Jitter → ℕ → ℕ
  highest decorrelated raw = config.max_delay
  highest _ raw = raw

  -- The delays keep their bounds, from an attempt on.
  abbrev pub Within : ℕ → List ℕ → Type 0
  Within attempt [] = Unit
  Within attempt (d ∷ ds) =
      ((lowest config.jitter (raw_delay config attempt) ≤ d)
        × (d ≤ highest config.jitter (raw_delay config attempt)))
      × Within (attempt + 1) ds

  jittered-range :
      (jitter : Jitter) (raw previous drawn : ℕ)
      → config.base_delay ≤ previous
      → (lowest jitter raw ≤ jittered jitter config raw previous drawn)
        × (jittered jitter config raw previous drawn ≤ highest jitter raw)
  jittered-range no_jitter raw previous drawn le = (omega arith, omega arith)
  jittered-range full raw previous drawn le = uniform-range 0 raw drawn (omega arith)
  jittered-range equal raw previous drawn le =
      let (lo, hi) = uniform-range 0 (raw / 2) drawn (omega arith) in
      (omega arith, omega (arith, hi))
  jittered-range decorrelated raw previous drawn le =
      let (lo, hi) = uniform-range config.base_delay (previous * 3) drawn (omega arith) in
      (omega (arith, lo), omega arith)

  delays-Within_from :
      (drawn : ℕ → ℕ) (n attempt previous : ℕ)
      → config.base_delay ≤ previous
      → Within attempt (
          delays
            (λ attempt previous. exponential_delay config attempt (drawn attempt) previous)
            n
            attempt
            previous)
  unfolding delays exponential_delay
  delays-Within_from drawn zero attempt previous le = tt
  delays-Within_from drawn (suc n) attempt previous le =
      let d = jittered config.jitter config (raw_delay config attempt) previous (drawn attempt) in
      (
        jittered-range config.jitter (raw_delay config attempt) previous (drawn attempt) le,
        delays-Within_from drawn n (attempt + 1) (max d config.base_delay) (omega arith),
      )

  -- Whatever is drawn, the delay before the n-th retry is the doubled base up to the cap without
  -- jitter, at most that with full jitter, between half of it and it with equal jitter, and between
  -- the base and the cap with decorrelated jitter, where the base is within the cap.
  pub delays-Within :
      (drawn : ℕ → ℕ) (n : ℕ)
      → Within 1 (
          delays
            (λ attempt previous. exponential_delay config attempt (drawn attempt) previous)
            n
            1
            config.base_delay)
  delays-Within drawn n = delays-Within_from drawn n 1 config.base_delay (omega arith)
