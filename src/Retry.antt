-- ===== src/Retry.antt =====
-- The retry loops of resilience/retry.py: the wrapper of a function, and the block form. Exceptions
-- that are no `Exception`, such as a cancellation, are apart, since no loop catches them. Python's
-- generator of the block form and its caller's `with` statement are one loop. Times are integers.
pub mod Runs
pub mod Block
mod Tests
use grelmicro.Prelude.{
  ℕ, zero, suc, ◌+◌, Bool, true, false, not, ◌&&◌, ◌||◌, Option, none, some, List, [], ◌∷◌, leb,
  ltb, if◌then◌else◌,
}

-- How a call ends: a result, an Exception, or another BaseException.
pub data Outcome (V E : Type 0) : Type 0 where
  returned : V → Outcome V E
  raised : E → Outcome V E
  cancelled : E → Outcome V E

-- The note that is added to an exception: the attempts are exhausted, or the budget has elapsed
-- after so many.
pub data Note : Type 0 where
  exhausted : ℕ → Note
  budget_elapsed : ℕ → Note

-- What a run comes to. `last_result` is the value None that no attempt has assigned.
pub data Result (V E : Type 0) : Type 0 where
  last_result : Result V E
  value : V → Result V E
  error : E → Option Note → Result V E

-- The outcome that a run is counted under by `_emit_retry`.
pub data Counted : Type 0 where
  success failure : Counted

-- A run: what it comes to, what it is counted as, its calls of the function, and the delays that it
-- slept, from the first.
pub record Run (V E : Type 0) : Type 0 where
  pub result : Result V E
  pub counted : Option Counted
  pub calls : ℕ
  pub slept : List ℕ

pub record RetryConfig : Type 0 where
  pub attempts : ℕ
  pub max_seconds : Option ℕ

abbrev pub is_over : Option ℕ → ℕ → Bool
is_over none elapsed = false
is_over (some max_seconds) elapsed = leb max_seconds elapsed

module _ {V E : Type 0} where
  abbrev pub ended : Result V E → Option Counted → Run V E
  ended result counted = record { result = result; counted = counted; calls = 0; slept = [] }

  -- An attempt: it sleeps if the delay is not 0, and calls the function.
  abbrev pub attempted : ℕ → Run V E → Run V E
  attempted delay r = record r {
    calls = suc r.calls;
    slept = if ltb 0 delay then delay ∷ r.slept else r.slept;
  }

-- The matcher, the strategy's delays by the number of the attempt, the outcome of the call in each
-- attempt, and the seconds since the start when it has ended.
module _ {V E S : Type 0} (config : RetryConfig) (matcher : Outcome V E → Bool)
    (strategy : ℕ → S → ℕ × S) (call : ℕ → Outcome V E) (elapsed : ℕ → ℕ) where
  abbrev pub attempts_done : ℕ → Bool
  attempts_done number = leb config.attempts number

  abbrev pub time_done : ℕ → Bool
  time_done number = is_over config.max_seconds (elapsed number)

  -- The note of the last attempt.
  abbrev pub note : ℕ → Note
  note number = if attempts_done number then exhausted config.attempts else budget_elapsed number

  -- What follows a call, by its outcome and by the run of the rounds left.
  abbrev pub after_call : ℕ → Outcome V E → Run V E → Run V E
  after_call number (cancelled e) rest = ended (error e none) none
  after_call number (raised e) rest =
      if not (matcher (raised e))
      then ended (error e none) none
      else if attempts_done number || time_done number
      then ended (error e (some (note number))) (some failure)
      else rest
  after_call number (returned v) rest =
      if not (matcher (returned v))
      then ended (value v) (some success)
      else if attempts_done number || time_done number
      then ended (value v) (some failure)
      else rest

  -- The loop of `_run_async` and of `_run_sync`, by the rounds left.
  unfoldable pub rounds_from : ℕ → ℕ → ℕ → S → Run V E
  rounds_from zero number delay s = ended last_result none
  rounds_from (suc rounds) number delay s =
      let next = strategy number s in
      let rest = rounds_from rounds (number + 1) next.0 next.1 in
      attempted delay (after_call number (call number) rest)

  -- `_run_async`, `_run_sync`
  unfoldable pub run : S → Run V E
  unfolding rounds_from
  run s = rounds_from config.attempts 1 0 s
