-- ===== src/Retry/Runs.antt =====
-- When the loops of resilience/retry.py end, with which outcome, and what they sleep.
use grelmicro.Prelude.{
  ℕ, zero, suc, ◌+◌, ◌-◌, ◌*◌, ◌≤◌, ◌<◌, ◌≡◌, refl, ap, sym, ◌∙◌, Bool, true, false, not, ◌||◌,
  Option, none, some, List, [], ◌∷◌, ltb, if◌then◌else◌, arith, Bool-cases, inl, inr,
}
use grelmicro.Backoff.{delays}
use grelmicro.Retry.{
  Outcome, returned, raised, cancelled, Note, Result, value, error, Counted, success, failure, Run,
  RetryConfig, is_over, attempted, attempts_done, time_done, note, rounds_from, run,
}

-- The delays that are slept, since 0 is not.
unfoldable pub positives : List ℕ → List ℕ
positives [] = []
positives (d ∷ ds) = let rest = positives ds in if ltb 0 d then d ∷ rest else rest

abbrev pub total : List ℕ → ℕ
total [] = 0
total (d ∷ ds) = d + total ds

suc-mul : (n m : ℕ) → suc n * m ≡ m + n * m
suc-mul n m = grind arith

module _ {V E S : Type 0} (config : RetryConfig) (matcher : Outcome V E → Bool)
    (strategy : ℕ → S → ℕ × S) (call : ℕ → Outcome V E) (elapsed : ℕ → ℕ) where
  -- The outcome is one to retry: it matches, and a cancellation never does.
  abbrev pub is_retried : Outcome V E → Bool
  is_retried (cancelled e) = false
  is_retried (raised e) = matcher (raised e)
  is_retried (returned v) = matcher (returned v)

  abbrev pub exhausts : ℕ → Bool
  exhausts number =
      attempts_done config matcher strategy call elapsed number
      || time_done config matcher strategy call elapsed number

  -- An attempt is the last of its run.
  abbrev pub ends : ℕ → Bool
  ends number = not (is_retried (call number)) || exhausts number

  -- What a run comes to, by the outcome of its last attempt: the note is for an outcome to retry.
  abbrev pub result_of : Bool → Note → Outcome V E → Result V E
  result_of retried n (cancelled e) = error e none
  result_of retried n (raised e) = error e (if retried then some n else none)
  result_of retried n (returned v) = value v

  -- What it is counted as: an exception that is not retried is not counted.
  abbrev pub counted_of : Bool → Outcome V E → Option Counted
  counted_of retried (cancelled e) = none
  counted_of retried (raised e) = if retried then some failure else none
  counted_of retried (returned v) = if retried then some failure else some success

  -- The run whose last attempt is this one, after so many and with these delays.
  abbrev pub ending_at : ℕ → ℕ → List ℕ → Run V E
  ending_at number calls ds =
      let retried = is_retried (call number) in
      record {
        result = result_of retried (note config matcher strategy call elapsed number) (call number);
        counted = counted_of retried (call number);
        calls = calls;
        slept = positives ds;
      }

  -- The first attempt from a number on that is the last of its run is so many after it.
  abbrev pub IsLast : ℕ → ℕ → Type 0
  IsLast number j = (ends (number + j) ≡ true) × ((i : ℕ) → i < j → ends (number + i) ≡ false)

  abbrev go : ℕ → ℕ → ℕ → S → Run V E
  go = rounds_from config matcher strategy call elapsed

  pub rounds_from-last :
      (rounds number delay : ℕ) (s : S)
      → ends number ≡ true
      → go (suc rounds) number delay s ≡ ending_at number 1 (delay ∷ [])
  unfolding rounds_from positives
  rounds_from-last rounds number delay s h = ground (arith, h)

  pub rounds_from-next :
      (rounds number delay : ℕ) (s : S)
      → ends number ≡ false
      → go (suc rounds) number delay s
        ≡ attempted delay (go rounds (number + 1) (strategy number s).0 (strategy number s).1)
  unfolding rounds_from
  rounds_from-next rounds number delay s h = ground (arith, h)

  -- A loop with an attempt left ends at the first attempt that is the last of its run.
  abbrev Reaches : ℕ → ℕ → ℕ → S → Type 0
  Reaches rounds number delay s =
      (j : ℕ) × ((j ≤ rounds)
        × (IsLast number j
            × (go (suc rounds) number delay s
                ≡ ending_at (number + j) (suc j) (delay ∷ delays strategy j number s))))

  ending_at-attempted :
      (number j delay : ℕ) (ds : List ℕ)
      → attempted delay (ending_at number j ds) ≡ ending_at number (suc j) (delay ∷ ds)
  unfolding positives
  ending_at-attempted number j delay ds = refl

  IsLast-suc : (number j : ℕ) → ends number ≡ false → IsLast (number + 1) j → IsLast number (suc j)
  IsLast-suc number j more (last, before) =
      let e : number + 1 + j ≡ number + suc j = omega arith in (ap ends (sym e) ∙ last, earlier)
    where
      earlier : (i : ℕ) → i < suc j → ends (number + i) ≡ false
      earlier zero lt = ap ends (omega arith) ∙ more
      earlier (suc i) lt = ap ends (omega arith) ∙ before i (omega (arith, lt))

  at_once : (rounds number delay : ℕ) (s : S) → ends number ≡ true → Reaches rounds number delay s
  unfolding delays
  at_once rounds number delay s last =
      let e : number ≡ number + 0 = omega arith in
      (
        0,
        (
          omega arith,
          (
            (ap ends (sym e) ∙ last, λ i lt. absurd (omega (arith, lt))),
            rounds_from-last rounds number delay s last ∙ ap (λ n. ending_at n 1 (delay ∷ [])) e,
          ),
        ),
      )

  sum_suc : (number j : ℕ) → number + 1 + j ≡ number + suc j
  sum_suc number j = omega arith

  rounds_from-Reaches :
      (rounds number delay : ℕ) (s : S)
      → number + rounds ≡ config.attempts
      → Reaches rounds number delay s
  unfolding delays
  rounds_from-Reaches zero number delay s e =
      let last : ends number ≡ true = ground (arith, e) in at_once zero number delay s last
  rounds_from-Reaches (suc rounds) number delay s e = elim (Bool-cases (ends number)) [
    | inl last ↦ at_once (suc rounds) number delay s last
    | inr more ↦
        let next = strategy number s in
        let (j, (le, (is_last, q))) =
          rounds_from-Reaches rounds (number + 1) next.0 next.1 (omega (arith, e)) in
        (
          suc j,
          (
            omega (arith, le),
            (
              IsLast-suc number j more is_last,
              rounds_from-next (suc rounds) number delay s more
                  ∙ ap (attempted delay) q
                  ∙ ending_at-attempted (number + 1 + j) (suc j) delay
                      (next.0 ∷ delays strategy j (number + 1) next.1)
                  ∙ ap (λ n. ending_at n (suc (suc j)) (delay ∷ delays strategy (suc j) number s))
                      (sum_suc number j),
            ),
          ),
        )
  ]

  -- A run calls the function once, and again as long as the outcome is one to retry, attempts are
  -- left and the time is not over: it comes to the outcome of the first call after which this fails.
  -- Between its calls it sleeps the strategy's delays, in order, less the zeros.
  pub run_lem :
      (s : S)
      → 0 < config.attempts
      → (j : ℕ) × ((j < config.attempts)
          × (IsLast 1 j
              × (run config matcher strategy call elapsed s
                  ≡ ending_at (1 + j) (suc j) (delays strategy j 1 s))))
  unfolding run positives
  run_lem s pos =
      let e : config.attempts ≡ suc (config.attempts - 1) = omega (arith, pos) in
      let (j, (le, (last, q))) =
        rounds_from-Reaches (config.attempts - 1) 1 0 s (omega (arith, pos)) in
      (j, (omega (arith, le, pos), (last, ap (λ n. go n 1 0 s) e ∙ q)))

  IsLast-unique : (number j k : ℕ) → IsLast number j → IsLast number k → j ≡ k
  IsLast-unique number j k (lj, bj) (lk, bk) = elim (Bool-cases (ltb j k)) [
    | inl lt ↦ ground (arith, bk j (ground (arith, lt)), lj)
    | inr ge ↦ elim (Bool-cases (ltb k j)) [
      | inl lt ↦ ground (arith, bj k (ground (arith, lt)), lk)
      | inr le ↦ ground (arith, ge, le)
    ]
  ]

  -- Where the first calls all have outcomes to retry, within the attempts and the time, the run goes on
  -- to the next call; where the outcome of that one is not to retry, the run comes to it.
  pub run-settles :
      (s : S) (j : ℕ)
      → j < config.attempts
      → ((i : ℕ)
          → i < j
          → (is_retried (call (1 + i)) ≡ true)
            × (is_over config.max_seconds (elapsed (1 + i)) ≡ false))
      → is_retried (call (1 + j)) ≡ false
      → run config matcher strategy call elapsed s
        ≡ ending_at (1 + j) (suc j) (delays strategy j 1 s)
  run-settles s j lt retried settled =
      let (k, (le, (last, q))) = run_lem s (omega (arith, lt)) in
      let here : IsLast 1 j =
        (ground (arith, settled), λ i below. ground (arith, retried i below, below, lt)) in
      q
      ∙ ap (λ n. ending_at (1 + n) (suc n) (delays strategy n 1 s)) (IsLast-unique 1 k j last here)

  delays_bound :
      (m n attempt : ℕ) (s : S)
      → ((i : ℕ) (t : S) → (strategy i t).0 ≤ m)
      → total (positives (delays strategy n attempt s)) ≤ n * m
  unfolding delays positives
  delays_bound m zero attempt s h = omega arith
  delays_bound m (suc n) attempt s h =
      let (d, t) = strategy attempt s in
      ground (arith, delays_bound m n (attempt + 1) t h, h attempt s, suc-mul n m)

  -- A run calls the function at least once and at most the number of attempts, and where no delay of
  -- the strategy is above a bound, it sleeps at most the bound for each call but one.
  pub run_bounds :
      (s : S) (m : ℕ)
      → 0 < config.attempts
      → ((i : ℕ) (t : S) → (strategy i t).0 ≤ m)
      → (let r = run config matcher strategy call elapsed s in
          ((0 < r.calls) × (r.calls ≤ config.attempts)) × (total r.slept ≤ (r.calls - 1) * m))
  run_bounds s m pos h =
      let (j, (le, (last, q))) = run_lem s pos in
      let b = delays_bound m j 1 s h in
      let c : suc j - 1 ≡ j = omega arith in rw (q, c) ((omega arith, omega (arith, le)), b)
