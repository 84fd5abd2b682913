-- ===== src/Retry/Block.antt =====
-- The block form of resilience/retry.py, `async for attempt in policy: async with attempt: …`, and the
-- same without `async`.
pub mod Equal
use grelmicro.Prelude.{
  ℕ, zero, suc, ◌+◌, Bool, true, false, not, ◌&&◌, ◌||◌, Option, none, some, if◌then◌else◌,
}
use grelmicro.Retry.{
  Outcome, returned, raised, cancelled, Note, last_result, value, error, Run, RetryConfig, ended,
  attempted, attempts_done, time_done, note,
}

-- What the exit of an attempt does: it may stop the loop, it suppresses the exception or not, and it
-- may add a note.
pub record Exit : Type 0 where
  pub stops : Bool
  pub suppresses : Bool
  pub noted : Option Note

abbrev pub propagates : Option Note → Exit
propagates n = record { stops = false; suppresses = false; noted = n }

module _ {V E : Type 0} where
  -- The end of the body of a `with` statement, and the loop's next step.
  abbrev pub after_exit : Exit → Outcome V E → Run V E → Run V E
  after_exit x (returned v) rest = if x.stops then ended (value v) none else rest
  after_exit x (raised e) rest =
      if not x.suppresses
      then ended (error e x.noted) none
      else if x.stops
      then ended last_result none
      else rest
  after_exit x (cancelled e) rest =
      if not x.suppresses
      then ended (error e x.noted) none
      else if x.stops
      then ended last_result none
      else rest

module _ {V E S : Type 0} (config : RetryConfig) (matcher : Outcome V E → Bool)
    (strategy : ℕ → S → ℕ × S) (call : ℕ → Outcome V E) (elapsed : ℕ → ℕ) where
  -- `RetryAttempt._handle_exit`
  abbrev pub handle_exit : ℕ → Outcome V E → Exit
  handle_exit number (returned v) = record { stops = true; suppresses = false; noted = none }
  handle_exit number (cancelled e) = propagates none
  handle_exit number (raised e) =
      if not (matcher (raised e))
      then propagates none
      else if attempts_done config matcher strategy call elapsed number
          || time_done config matcher strategy call elapsed number
      then propagates (some (note config matcher strategy call elapsed number))
      else record { stops = false; suppresses = true; noted = none }

  -- `_async_iter`, `_sync_iter`, with the body of the loop that the caller writes.
  unfoldable pub attempts_from : ℕ → ℕ → ℕ → S → Run V E
  attempts_from zero number delay_before s = ended last_result none
  attempts_from (suc rounds) number delay_before s =
      let next = strategy number s in
      let rest = attempts_from rounds (number + 1) next.0 next.1 in
      attempted delay_before (after_exit (handle_exit number (call number)) (call number) rest)

  unfoldable pub iterate : S → Run V E
  unfolding attempts_from
  iterate s = attempts_from config.attempts 1 0 s
