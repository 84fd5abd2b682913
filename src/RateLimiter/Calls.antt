-- ===== src/RateLimiter/Calls.antt =====
-- Runs of calls of the rate limiters of resilience/ratelimiter/memory.py.
use grelmicro.Prelude.{ℕ, ◌≤◌, String, List, [], ◌∷◌, arith}

pub record Call : Type 0 where
  pub key : String
  pub cost : ℕ
  pub now : ℕ

-- The calls come in the order of their times, between two times.
abbrev pub InOrder : ℕ → List Call → ℕ → Type 0
InOrder start [] finish = start ≤ finish
InOrder start (call ∷ calls) finish = (start ≤ call.now) × InOrder call.now calls finish

pub InOrder-le :
    (start : ℕ) (calls : List Call) (finish : ℕ) → InOrder start calls finish → start ≤ finish
InOrder-le start [] finish o = o
InOrder-le start (call ∷ calls) finish o = omega (arith, o.0, InOrder-le call.now calls finish o.1)
