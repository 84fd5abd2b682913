-- ===== src/Coordination/Schedule.antt =====
-- `MemoryScheduleAdapter` of coordination/memory.py: the last fire of each schedule. An instant is a
-- whole number of microseconds since the epoch.
use grelmicro.Prelude.{
  ◌&&◌, ℕ, ◌<◌, ◌≡◌, Bool, true, false, Option, none, some, String, List, [], ◌∷◌, leb, arith,
  string_eq, ◌==◌, eq_iff, Bool-cases, inl, inr, if◌then◌else◌,
}
use grelmicro.Dict.{Dict, lookup, insert, lookup-insert, lookup-insert_self}

abbrev pub Fires : Type 0
Fires = Dict String ℕ

-- `stored is not None and stored >= due`
abbrev is_claimed : Option ℕ → ℕ → Bool
is_claimed none due = false
is_claimed (some stored) due = leb due stored

unfoldable pub claim : String → ℕ → Fires → Bool × Fires
claim name due fires =
    if is_claimed (lookup name fires) due then (false, fires) else (true, insert name due fires)

unfoldable pub last_fired : String → Fires → Option ℕ
last_fired name fires = lookup name fires

-- The fires of one schedule that a sequence of claims by any workers, on any schedules, wins.
pub won : String → List (String × ℕ) → Fires → List ℕ
won name [] fires = []
won name ((other, due) ∷ claims) fires =
    let (ok, fires') = claim other due fires in
    let rest = won name claims fires' in if ok && (other == name) then due ∷ rest else rest

abbrev pub Exceeds : Option ℕ → ℕ → Type 0
Exceeds none due = Unit
Exceeds (some bound) due = bound < due

-- Strictly ascending, from above the bound.
abbrev pub Above : Option ℕ → List ℕ → Type 0
Above bound [] = Unit
Above bound (due ∷ dues) = Exceeds bound due × Above (some due) dues

claim-true :
    (name : String) (due : ℕ) (fires : Fires)
    → (claim name due fires).0 ≡ true
    → (lookup name (claim name due fires).1 ≡ some due) × Exceeds (lookup name fires) due
unfolding claim
claim-true name due fires h = ground (arith, lookup-insert_self name due fires)

pub claim_own :
    (name other : String) (due : ℕ) (fires : Fires)
    → ((claim other due fires).0 && (other == name)) ≡ true
    → (lookup name (claim other due fires).1 ≡ some due) × Exceeds (lookup name fires) due
claim_own name other due fires h =
    let same : other ≡ name = ground (arith, eq_iff other name) in
    rw (← same) (claim-true other due fires (ground arith))

pub claim_other :
    (name other : String) (due : ℕ) (fires : Fires)
    → ((claim other due fires).0 && (other == name)) ≡ false
    → lookup name (claim other due fires).1 ≡ lookup name fires
unfolding claim
claim_other name other due fires h = ground (arith, lookup-insert other name due fires)

-- Whatever claims arrive, in whatever order, the fires that a schedule wins ascend strictly, from
-- its last fire on: no fire is won twice, and none after a later one.
pub won-Above :
    (name : String) (claims : List (String × ℕ)) (fires : Fires)
    → Above (last_fired name fires) (won name claims fires)
unfolding won last_fired
won-Above name [] fires = tt
won-Above name ((other, due) ∷ claims) fires =
    let rest = won-Above name claims (claim other due fires).1 in
    elim (Bool-cases ((claim other due fires).0 && (other == name))) [
      | inl mine ↦
          let (last, above) = claim_own name other due fires mine in
          rw mine (above, rw last at rest)
      | inr not_mine ↦ rw not_mine (rw (claim_other name other due fires not_mine) at rest)
    ]

-- The store after the claims of any workers on any schedules.
pub claim_all : List (String × ℕ) → Fires → Fires
claim_all [] fires = fires
claim_all ((name, due) ∷ claims) fires = claim_all claims (claim name due fires).1

claim_all-claimed :
    (name : String) (due : ℕ) (claims : List (String × ℕ)) (fires : Fires)
    → is_claimed (lookup name fires) due ≡ true
    → is_claimed (lookup name (claim_all claims fires)) due ≡ true
unfolding claim_all claim
claim_all-claimed name due [] fires h = h
claim_all-claimed name due ((other, due') ∷ claims) fires h =
    claim_all-claimed name due claims (claim other due' fires).1
      (ground (arith, lookup-insert other name due' fires, eq_iff other name))

claim-claimed :
    (name : String) (due : ℕ) (fires : Fires)
    → is_claimed (lookup name (claim name due fires).1) due ≡ true
unfolding claim
claim-claimed name due fires = ground (arith, lookup-insert_self name due fires)

-- Once a fire of a schedule has been claimed, whoever won it and whatever is claimed afterwards,
-- no claim of that fire wins it again, and the claim changes nothing.
pub claim_once :
    (name : String) (due : ℕ) (claims : List (String × ℕ)) (fires : Fires)
    → claim name due (claim_all claims (claim name due fires).1)
      ≡ (false, claim_all claims (claim name due fires).1)
unfolding claim
claim_once name due claims fires = ground (
  arith,
  claim_all-claimed name due claims (claim name due fires).1,
  claim-claimed name due fires,
)
