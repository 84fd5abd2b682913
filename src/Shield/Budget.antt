-- ===== src/Shield/Budget.antt =====
-- `_RetryBudget` of resilience/shield/_retry_budget.py.
use grelmicro.Prelude.{
  ℕ, zero, ◌+◌, ◌-◌, ◌≤◌, min, Bool, true, false, List, [], ◌∷◌, Option, none, some, leb, arith,
  if◌then◌else◌,
}

pub record RetryBudget : Type 0 where
  pub capacity : ℕ
  pub available : ℕ

-- The constructor; none where it raises ValueError.
abbrev pub retry_budget : ℕ → Option RetryBudget
retry_budget capacity =
    if leb capacity zero then none else some (record { capacity = capacity; available = capacity })

unfoldable pub try_acquire : RetryBudget → Bool × RetryBudget
try_acquire b =
    if leb b.available 0 then (false, b) else (true, record b { available = b.available - 1 })

unfoldable pub refund : ℕ → RetryBudget → RetryBudget
refund amount b =
    if leb amount 0 then b else record b { available = min b.capacity (b.available + amount) }

pub data Operation : Type 0 where
  acquire : Operation
  give_back : ℕ → Operation

unfoldable pub run : List Operation → RetryBudget → RetryBudget
run [] b = b
run (acquire ∷ ops) b = run ops (try_acquire b).1
run (give_back amount ∷ ops) b = run ops (refund amount b)

-- The retries that a run is granted.
unfoldable pub granted : List Operation → RetryBudget → ℕ
granted [] b = 0
granted (acquire ∷ ops) b =
    let rest = granted ops (try_acquire b).1 in if (try_acquire b).0 then rest + 1 else rest
granted (give_back amount ∷ ops) b = granted ops (refund amount b)

unfoldable pub refunded : List Operation → ℕ
refunded [] = 0
refunded (acquire ∷ ops) = refunded ops
refunded (give_back amount ∷ ops) = amount + refunded ops

-- From a budget that is within its capacity, a run is granted at most the retries that were
-- available and those refunded, what is left counts against them, and the budget stays within its
-- capacity.
pub granted-run :
    (ops : List Operation) (b : RetryBudget)
    → b.available ≤ b.capacity
    → (granted ops b + (run ops b).available ≤ b.available + refunded ops)
      × ((run ops b).available ≤ (run ops b).capacity)
unfolding run granted refunded try_acquire refund
granted-run [] b le = (omega arith, le)
granted-run (acquire ∷ ops) b le =
    ground (arith, granted-run ops (try_acquire b).1 (ground (arith, le)))
granted-run (give_back amount ∷ ops) b le =
    ground (arith, granted-run ops (refund amount b) (ground (arith, le)))
