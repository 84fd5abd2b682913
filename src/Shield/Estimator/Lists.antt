-- ===== src/Shield/Estimator/Lists.antt =====
-- Lists of latencies read backwards, cut short and counted, for resilience/shield/_timeout_estimator.py.
use grelmicro.Prelude.{
  ℕ, zero, suc, ◌+◌, ◌≤◌, ◌≡◌, refl, ap, List, [], ◌∷◌, ◌++◌, arith, length, length-append, take,
}
use grelmicro.Shield.Estimator.{put}
use grelmicro.Shield.Estimator.Rank.{at_most, below}

unfoldable pub rev : List ℕ → List ℕ
rev [] = []
rev (x ∷ xs) = rev xs ++ (x ∷ [])

pub length-rev : (xs : List ℕ) → length (rev xs) ≡ length xs
unfolding rev
length-rev [] = refl
length-rev (x ∷ xs) = omega (arith, length-append (rev xs) (x ∷ []), length-rev xs)

pub rev-append : (xs : List ℕ) (x : ℕ) → rev (xs ++ (x ∷ [])) ≡ x ∷ rev xs
unfolding rev
rev-append [] x = refl
rev-append (y ∷ ys) x = ap (λ zs. zs ++ (y ∷ [])) (rev-append ys x)

pub append_assoc : (xs ys zs : List ℕ) → (xs ++ ys) ++ zs ≡ xs ++ (ys ++ zs)
append_assoc [] ys zs = refl
append_assoc (x ∷ xs) ys zs = ap (λ r. x ∷ r) (append_assoc xs ys zs)

pub append-nil : (xs : List ℕ) → xs ++ [] ≡ xs
append-nil [] = refl
append-nil (x ∷ xs) = ap (λ r. x ∷ r) (append-nil xs)

pub put-append :
    (new old : List ℕ) (o x : ℕ) → put (length new) x (new ++ (o ∷ old)) ≡ (new ++ (x ∷ [])) ++ old
unfolding put
put-append [] old o x = refl
put-append (y ∷ new) old o x = ap (λ r. y ∷ r) (put-append new old o x)

pub take-append : (xs ys : List ℕ) → take (length xs) (xs ++ ys) ≡ xs
unfolding take
take-append [] ys = refl
take-append (x ∷ xs) ys = ap (λ r. x ∷ r) (take-append xs ys)

pub take_short : (n : ℕ) (xs : List ℕ) → length xs ≤ n → take n xs ≡ xs
unfolding take
take_short zero [] le = refl
take_short zero (x ∷ xs) le = ground arith
take_short (suc n) [] le = refl
take_short (suc n) (x ∷ xs) le = ap (λ r. x ∷ r) (take_short n xs (omega arith))

pub take-take-suc : (n : ℕ) (xs : List ℕ) → take n (take (suc n) xs) ≡ take n xs
unfolding take
take-take-suc zero xs = refl
take-take-suc (suc n) [] = refl
take-take-suc (suc n) (x ∷ xs) = ap (λ r. x ∷ r) (take-take-suc n xs)

module _ (v : ℕ) where
  pub at_most-append : (xs ys : List ℕ) → at_most v (xs ++ ys) ≡ at_most v xs + at_most v ys
  unfolding at_most
  at_most-append [] ys = omega arith
  at_most-append (x ∷ xs) ys = ground (arith, at_most-append xs ys)

  pub at_most-rev : (xs : List ℕ) → at_most v (rev xs) ≡ at_most v xs
  unfolding at_most rev
  at_most-rev [] = refl
  at_most-rev (x ∷ xs) = ground (arith, at_most-append (rev xs) (x ∷ []), at_most-rev xs)

  pub below-append : (xs ys : List ℕ) → below v (xs ++ ys) ≡ below v xs + below v ys
  unfolding below
  below-append [] ys = omega arith
  below-append (x ∷ xs) ys = ground (arith, below-append xs ys)

  pub below-rev : (xs : List ℕ) → below v (rev xs) ≡ below v xs
  unfolding below rev
  below-rev [] = refl
  below-rev (x ∷ xs) = ground (arith, below-append (rev xs) (x ∷ []), below-rev xs)

pub take_prefix : (n : ℕ) (xs ys : List ℕ) → length xs ≡ n → take n (xs ++ ys) ≡ xs
take_prefix n xs ys e = rw (← e) (take-append xs ys)
