-- ===== src/Text/Split.antt =====
-- Splitting a text that was put together.
use grelmicro.Prelude.{
  ℕ, ◌≡◌, ◌≢◌, refl, true, false, ◌||◌, List, [], ◌∷◌, ◌++◌, nat_beq, nat_beq_iff, nat_eq, contains,
  arith, if◌then◌else◌,
}
use grelmicro.Text.{Text, to_head, split, partition}

pub contains-append :
    (xs ys : List ℕ) (x : ℕ) → contains (xs ++ ys) x ≡ (contains xs x || contains ys x)
unfolding contains
contains-append [] ys x = refl
contains-append (y ∷ xs) ys x = ground (arith, contains-append xs ys x)

module _ (sep : ℕ) where
  pub partition-append :
      (p q : Text) → contains p sep ≡ false → partition sep (p ++ (sep ∷ q)) ≡ (p, (true, q))
  unfolding partition contains
  partition-append [] q h = ground (arith, nat_beq_iff sep sep)
  partition-append (c ∷ p) q h = ground (arith, partition-append p q, nat_beq_iff c sep)

  pub partition_none : (p : Text) → contains p sep ≡ false → partition sep p ≡ (p, (false, []))
  unfolding partition contains
  partition_none [] h = refl
  partition_none (c ∷ p) h = ground (arith, partition_none p, nat_beq_iff c sep)

  pub split_none : (p : Text) → contains p sep ≡ false → split sep p ≡ p ∷ []
  unfolding split contains
  split_none [] h = refl
  split_none (c ∷ p) h = ground (arith, split_none p, nat_beq_iff c sep)

  pub split-append :
      (p q : Text) → contains p sep ≡ false → split sep (p ++ (sep ∷ q)) ≡ p ∷ split sep q
  unfolding split contains
  split-append [] q h = ground (arith, nat_beq_iff sep sep)
  split-append (c ∷ p) q h = ground (arith, split-append p q, nat_beq_iff c sep)

pub contains-text :
    (p q : Text) (c sep : ℕ)
    → contains p sep ≡ false
    → contains (c ∷ q) sep ≡ false
    → contains (p ++ (c ∷ q)) sep ≡ false
contains-text p q c sep h h' = ground (arith, contains-append p (c ∷ q) sep)

module _ (sep : ℕ) where
  pub to_head-append : (c : ℕ) (p q : List Text) → p ≢ [] → to_head c (p ++ q) ≡ to_head c p ++ q
  to_head-append c [] q ne = absurd (ne refl)
  to_head-append c (s ∷ p) q ne = refl

  split-ne : (p : Text) → split sep p ≢ []
  unfolding split
  split-ne [] e = ground arith
  split-ne (c ∷ p) e =
      elim (split sep p) as (λ x. (if nat_beq c sep then [] ∷ x else to_head c x) ≡ [] → ⊥) [
        | [] ↦ λ h. ground arith
        | s ∷ ps ↦ λ h. ground arith
      ]
        e

  -- A separator splits a text into the parts of what stands before it and after it.
  pub split-append_sep : (p q : Text) → split sep (p ++ (sep ∷ q)) ≡ split sep p ++ split sep q
  unfolding split
  split-append_sep [] q = ground (arith, nat_beq_iff sep sep)
  split-append_sep (c ∷ p) q =
      ground
        (arith, split-append_sep p q, to_head-append c (split sep p) (split sep q) (split-ne p))
