-- ===== src/Retry/Block/Equal.antt =====
-- The two forms of the retry loop of resilience/retry.py, on exceptions.
use grelmicro.Prelude.{ℕ, zero, suc, ◌+◌, ◌≡◌, refl, ap, Bool, false, none, arith}
use grelmicro.Retry.{
  Outcome, returned, raised, cancelled, Run, RetryConfig, attempted, after_call, rounds_from, run,
}
use grelmicro.Retry.Block.{attempts_from, iterate, after_exit, handle_exit}

module _ {V E S : Type 0} (config : RetryConfig) (matcher : Outcome V E → Bool)
    (strategy : ℕ → S → ℕ × S) (call : ℕ → Outcome V E) (elapsed : ℕ → ℕ) where
  -- The block form sees no result.
  abbrev pub on_exceptions : Outcome V E → Bool
  on_exceptions (returned v) = false
  on_exceptions (raised e) = matcher (raised e)
  on_exceptions (cancelled e) = matcher (cancelled e)

  abbrev pub uncounted : Run V E → Run V E
  uncounted r = record r { counted = none }

  after_exit-after_call :
      (number : ℕ) (o : Outcome V E) (rest : Run V E)
      → after_exit (handle_exit config matcher strategy call elapsed number o) o (uncounted rest)
        ≡ uncounted (after_call config on_exceptions strategy call elapsed number o rest)
  after_exit-after_call number (returned v) rest = refl
  after_exit-after_call number (cancelled e) rest = refl
  after_exit-after_call number (raised e) rest = ground arith

  attempts_from-rounds_from :
      (rounds number delay : ℕ) (s : S)
      → attempts_from config matcher strategy call elapsed rounds number delay s
        ≡ uncounted (rounds_from config on_exceptions strategy call elapsed rounds number delay s)
  unfolding attempts_from rounds_from
  attempts_from-rounds_from zero number delay s = refl
  attempts_from-rounds_from (suc rounds) number delay s =
      let next = strategy number s in
      rw (attempts_from-rounds_from rounds (number + 1) next.0 next.1) (
        ap (attempted delay) (
          after_exit-after_call number (call number) (
            rounds_from config on_exceptions strategy call elapsed rounds (number + 1) next.0
              next.1)))

  -- The block form ends as the wrapper of a function does whose matcher asks for no retry of a
  -- result: with the same outcome and note, after as many calls and the same delays. Only the wrapper
  -- counts its run.
  pub iterate-run :
      (s : S)
      → iterate config matcher strategy call elapsed s
        ≡ uncounted (run config on_exceptions strategy call elapsed s)
  unfolding iterate run
  iterate-run s = attempts_from-rounds_from config.attempts 1 0 s
