-- ===== src/Shield/Estimator/Rank.antt =====
-- The element at a rank of a sorted list, by counting: what resilience/shield/_timeout_estimator.py
-- takes for the 95th percentile.
use grelmicro.Prelude.{
  ℕ, zero, suc, ◌+◌, ◌*◌, ◌≤◌, ◌<◌, ◌≡◌, refl, List, [], ◌∷◌, leb, ltb, arith, if◌then◌else◌,
  length,
}
use grelmicro.Shield.Estimator.{place, sorted, get_elem, rank}

-- How many of the values are at most a bound.
unfoldable pub at_most : ℕ → List ℕ → ℕ
at_most v [] = 0
at_most v (x ∷ xs) = let rest = at_most v xs in if leb x v then rest + 1 else rest

-- How many of the values are below a bound.
unfoldable pub below : ℕ → List ℕ → ℕ
below v [] = 0
below v (x ∷ xs) = let rest = below v xs in if ltb x v then rest + 1 else rest

at_most-place : (v x : ℕ) (xs : List ℕ) → at_most v (place x xs) ≡ at_most v (x ∷ xs)
unfolding at_most place
at_most-place v x [] = refl
at_most-place v x (y ∷ ys) = ground (arith, at_most-place v x ys)

pub at_most-sorted : (v : ℕ) (xs : List ℕ) → at_most v (sorted xs) ≡ at_most v xs
unfolding at_most sorted
at_most-sorted v [] = refl
at_most-sorted v (x ∷ xs) = ground (arith, at_most-place v x (sorted xs), at_most-sorted v xs)

below-place : (v x : ℕ) (xs : List ℕ) → below v (place x xs) ≡ below v (x ∷ xs)
unfolding below place
below-place v x [] = refl
below-place v x (y ∷ ys) = ground (arith, below-place v x ys)

pub below-sorted : (v : ℕ) (xs : List ℕ) → below v (sorted xs) ≡ below v xs
unfolding below sorted
below-sorted v [] = refl
below-sorted v (x ∷ xs) = ground (arith, below-place v x (sorted xs), below-sorted v xs)

length-place : (x : ℕ) (xs : List ℕ) → length (place x xs) ≡ suc (length xs)
unfolding place
length-place x [] = refl
length-place x (y ∷ ys) = ground (arith, length-place x ys)

pub length-sorted : (xs : List ℕ) → length (sorted xs) ≡ length xs
unfolding sorted
length-sorted [] = refl
length-sorted (x ∷ xs) = ground (arith, length-place x (sorted xs), length-sorted xs)

-- Every value is at least a bound.
abbrev AtLeast : ℕ → List ℕ → Type 0
AtLeast v [] = Unit
AtLeast v (x ∷ xs) = (v ≤ x) × AtLeast v xs

abbrev Ascends : List ℕ → Type 0
Ascends [] = Unit
Ascends (x ∷ xs) = AtLeast x xs × Ascends xs

AtLeast-le : (v w : ℕ) (xs : List ℕ) → v ≤ w → AtLeast w xs → AtLeast v xs
AtLeast-le v w [] le a = tt
AtLeast-le v w (x ∷ xs) le a = (omega (arith, a.0), AtLeast-le v w xs le a.1)

place-AtLeast : (v x : ℕ) (xs : List ℕ) → v ≤ x → AtLeast v xs → AtLeast v (place x xs)
unfolding place
place-AtLeast v x [] le a = (le, tt)
place-AtLeast v x (y ∷ ys) le a = ground (arith, place-AtLeast v x ys le a.1)

place-Ascends : (x : ℕ) (xs : List ℕ) → Ascends xs → Ascends (place x xs)
unfolding place
place-Ascends x [] a = (tt, tt)
place-Ascends x (y ∷ ys) a =
    ground (arith, place-Ascends x ys a.1, place-AtLeast y x ys, AtLeast-le x y ys)

sorted-Ascends : (xs : List ℕ) → Ascends (sorted xs)
unfolding sorted
sorted-Ascends [] = tt
sorted-Ascends (x ∷ xs) = place-Ascends x (sorted xs) (sorted-Ascends xs)

below-AtLeast : (v : ℕ) (xs : List ℕ) → AtLeast v xs → below v xs ≡ 0
unfolding below
below-AtLeast v [] a = refl
below-AtLeast v (x ∷ xs) a = ground (arith, below-AtLeast v xs a.1)

get_elem-AtLeast : (v i : ℕ) (xs : List ℕ) → AtLeast v xs → i < length xs → v ≤ get_elem xs i
unfolding get_elem
get_elem-AtLeast v i [] a lt = omega arith
get_elem-AtLeast v zero (x ∷ xs) a lt = a.0
get_elem-AtLeast v (suc i) (x ∷ xs) a lt = get_elem-AtLeast v i xs a.1 (omega arith)

-- Of an ascending list, more than i values are at most the one at i, and at most i are below it.
get_elem-Ascends :
    (i : ℕ) (xs : List ℕ)
    → Ascends xs
    → i < length xs
    → (i < at_most (get_elem xs i) xs) × (below (get_elem xs i) xs ≤ i)
unfolding get_elem at_most below
get_elem-Ascends i [] a lt = omega arith
get_elem-Ascends zero (x ∷ xs) a lt = ground (arith, below-AtLeast x xs a.0)
get_elem-Ascends (suc i) (x ∷ xs) a lt =
    let le : i < length xs = omega arith in
    ground (arith, get_elem-Ascends i xs a.1 le, get_elem-AtLeast x i xs a.0 le)

-- The 95th percentile of the values by nearest rank: at least 95 of 100 are at most it, and fewer
-- are below it.
pub get_elem-rank :
    (xs : List ℕ)
    → 0 < length xs
    → (let v = get_elem (sorted xs) (rank (length xs)) in
        (19 * length xs ≤ 20 * at_most v xs) × (20 * below v xs < 19 * length xs))
get_elem-rank xs pos =
    let i = rank (length xs) in
    let lt : i < length (sorted xs) = ground (arith, length-sorted xs) in
    let v = get_elem (sorted xs) i in
    let (a, b) = get_elem-Ascends i (sorted xs) (sorted-Ascends xs) lt in
    ground (arith, a, b, at_most-sorted v xs, below-sorted v xs)
