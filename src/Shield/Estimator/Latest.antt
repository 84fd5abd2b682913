-- ===== src/Shield/Estimator/Latest.antt =====
-- What resilience/shield/_timeout_estimator.py estimates, by the latencies it was given.
use grelmicro.Prelude.{
  ℕ, suc, ◌*◌, ◌≤◌, ◌<◌, ◌≡◌, refl, sym, ap, ◌∙◌, inl, inr, min, max, Option, none, some, List, [],
  ◌∷◌, ◌++◌, arith, length, length-append, take,
}
use grelmicro.Shield.Estimator.{TimeoutEstimator, init, record_latency, clamp, p95, estimate}
use grelmicro.Shield.Estimator.Rank.{at_most, below, get_elem-rank}
use grelmicro.Shield.Estimator.Lists.{
  rev, length-rev, append-nil, take_short, take_prefix, at_most-append, at_most-rev, below-append,
  below-rev,
}
use grelmicro.Shield.Estimator.Ring.{usable, record_all, Rolls, record_all-Rolls}

-- What the ring shows is what is new and what is kept.
shown :
    (h : List ℕ) (e : TimeoutEstimator) (r : Rolls h e) → take e.count e.buffer ≡ r.new ++ r.kept
shown h e r = elim r.fill [
  | inl f ↦
      ap (take e.count) r.split
      ∙ take_short e.count (r.new ++ r.old)
          (ground (arith, f, r.counted, length-append r.new r.old))
      ∙ ap (λ k. r.new ++ k) (sym f)
  | inr f ↦
      ap (take e.count) r.split
      ∙ take_prefix e.count r.new r.old (ground (arith, f, r.counted))
      ∙ sym (append-nil r.new)
      ∙ ap (λ k. r.new ++ k) (sym f)
]

shown-counts :
    (h : List ℕ) (e : TimeoutEstimator) (v : ℕ)
    → Rolls h e
    → (at_most v (take e.count e.buffer) ≡ at_most v (take 32 h))
      × ((below v (take e.count e.buffer) ≡ below v (take 32 h))
          × ((e.count ≡ length (take 32 h)) × (length (take e.count e.buffer) ≡ e.count)))
shown-counts h e v r =
    rw (shown h e r, r.last)
      (
        omega (
          arith,
          at_most-append v r.new r.kept,
          at_most-append v (rev r.new) (rev r.kept),
          at_most-rev v r.new,
          at_most-rev v r.kept,
        ),
        (
          omega (
            arith,
            below-append v r.new r.kept,
            below-append v (rev r.new) (rev r.kept),
            below-rev v r.new,
            below-rev v r.kept,
          ),
          (
            omega (
              arith,
              r.counted,
              length-append (rev r.new) (rev r.kept),
              length-rev r.new,
              length-rev r.kept,
            ),
            omega (arith, r.counted, length-append r.new r.kept),
          ),
        ),
      )

length-take-pos : (n : ℕ) (xs : List ℕ) → 0 < length xs → 0 < length (take (suc n) xs)
unfolding take
length-take-pos n [] pos = pos
length-take-pos n (x ∷ xs) pos = omega arith

record_all-limits :
    (initial low high : ℕ) (latencies : List (Option ℕ))
    → (let e = record_all latencies (init initial low high) in
        (e.clamp_min ≡ low) × (e.clamp_max ≡ high))
unfolding record_all record_latency init
record_all-limits initial low high [] = (refl, refl)
record_all-limits initial low high (none ∷ latencies) = record_all-limits initial low high latencies
record_all-limits initial low high (some x ∷ latencies) =
    record_all-limits initial low high latencies

-- Once a usable latency was recorded, the estimate is 2.5 times a value, kept within the limits, and
-- the value is the 95th percentile of the last 32 usable latencies, or of all where they are fewer:
-- at least 95 of 100 are at most it, and fewer are below it.
pub estimate-p95 :
    (initial low high : ℕ) (latencies : List (Option ℕ))
    → low ≤ high
    → 0 < length (usable latencies)
    → (let e = record_all latencies (init initial low high) in
        let window = take 32 (usable latencies) in
        (estimate e ≡ min high (max low (5 * p95 e)))
        × ((19 * length window ≤ 20 * at_most (p95 e) window)
            × (20 * below (p95 e) window < 19 * length window)))
unfolding estimate p95 clamp
estimate-p95 initial low high latencies limits pos =
    let e = record_all latencies (init initial low high) in
    let v = p95 e in
    let (am, (be, (co, le))) =
      shown-counts (usable latencies) e v (record_all-Rolls initial low high latencies) in
    let some_count : 0 < e.count = omega (arith, co, length-take-pos 31 (usable latencies) pos) in
    let r = get_elem-rank (take e.count e.buffer) (omega (arith, le, some_count)) in
    let (lo, hi) = record_all-limits initial low high latencies in
    let (r0, r1) = rw le at r in
    (ground (arith, lo, hi, some_count), (omega (arith, r0, am, co), omega (arith, r1, be, co)))
