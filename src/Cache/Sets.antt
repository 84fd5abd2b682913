-- ===== src/Cache/Sets.antt =====
-- Python sets of strings, as lists that are read only through membership.
use grelmicro.Prelude.{
  ◌≡◌, refl, false, ◌||◌, none, some, String, List, [], ◌∷◌, arith, string_eq, ◌==◌, eq_iff,
  if◌then◌else◌, contains,
}
use grelmicro.Dict.{Dict, lookup}

-- s.add(x)
unfoldable pub add : String → List String → List String
add x s = if contains s x then s else x ∷ s

-- s.discard(x)
unfoldable pub discard : String → List String → List String
discard x [] = []
discard x (y ∷ s) = let rest = discard x s in if y == x then rest else y ∷ rest

-- set(xs)
unfoldable pub to_set : List String → List String
to_set [] = []
to_set (x ∷ xs) = add x (to_set xs)

pub contains-add :
    (x y : String) (s : List String) → contains (add x s) y ≡ (x == y || contains s y)
unfolding add contains
contains-add x y s = ground (arith, eq_iff x y)

pub contains-discard :
    (x y : String) (s : List String)
    → contains (discard x s) y ≡ (if x == y then false else contains s y)
unfolding discard contains
contains-discard x y [] = ground arith
contains-discard x y (z ∷ s) =
    ground (arith, contains-discard x y s, eq_iff z x, eq_iff z y, eq_iff x y)

pub contains-to_set : (xs : List String) (y : String) → contains (to_set xs) y ≡ contains xs y
unfolding to_set contains
contains-to_set [] y = refl
contains-to_set (x ∷ xs) y = ground (arith, contains-to_set xs y, contains-add x y (to_set xs))

-- The set under a key; the empty set where there is none.
abbrev pub set_at : String → Dict String (List String) → List String
set_at k d = elim (lookup k d) [ none ↦ [] | some s ↦ s ]
