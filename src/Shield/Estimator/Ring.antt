-- ===== src/Shield/Estimator/Ring.antt =====
-- The ring of resilience/shield/_timeout_estimator.py holds the last 32 latencies.
use grelmicro.Prelude.{
  ℕ, suc, ◌+◌, ◌%◌, ◌≤◌, ◌<◌, ◌≡◌, refl, sym, ap, ◌∙◌, ◌⊎◌, inl, inr, Option, none, some, List, [],
  ◌∷◌, ◌++◌, arith, length, length-append, take,
}
use grelmicro.Shield.Estimator.{TimeoutEstimator, zeros, init, put, record_latency}
use grelmicro.Shield.Estimator.Lists.{
  rev, length-rev, rev-append, append_assoc, append-nil, put-append, take_short, take-take-suc,
  take_prefix,
}

-- The latencies that were recorded, the last one first, once those that are dropped are left out.
abbrev pub usable : List (Option ℕ) → List ℕ
usable [] = []
usable (none ∷ latencies) = usable latencies
usable (some latency ∷ latencies) = latency ∷ usable latencies

-- The estimator after the latencies, the last one first.
unfoldable pub record_all : List (Option ℕ) → TimeoutEstimator → TimeoutEstimator
record_all [] e = e
record_all (latency ∷ latencies) e = record_latency latency (record_all latencies e)

-- The ring is what is new since its index was last 0, then what is old; what is kept of the old is
-- all, or nothing where the ring has not been filled.
pub record Rolls (h : List ℕ) (e : TimeoutEstimator) : Type 0 where
  pub new : List ℕ
  pub old : List ℕ
  pub kept : List ℕ
  pub split : e.buffer ≡ new ++ old
  pub at : length new ≡ e.index
  pub room : length new + length old ≡ 32
  pub opening : 0 < length old
  pub counted : e.count ≡ length new + length kept
  pub fill : (kept ≡ old) ⊎ (kept ≡ [])
  pub last : take 32 h ≡ rev new ++ rev kept

length-snoc : (xs : List ℕ) (x : ℕ) → length (xs ++ (x ∷ [])) ≡ suc (length xs)
length-snoc xs x = omega (arith, length-append xs (x ∷ []))

-- What is left of a full ring's latencies when its oldest is overwritten.
last-full :
    (h new old : List ℕ) (o : ℕ)
    → length new + length old ≡ 31
    → take 32 h ≡ rev new ++ rev (o ∷ old)
    → take 31 h ≡ rev new ++ rev old
unfolding rev
last-full h new old o n last =
    let l : length (rev new ++ rev old) ≡ 31 =
      omega (arith, length-append (rev new) (rev old), length-rev new, length-rev old) in
    sym (take-take-suc 31 h)
    ∙ ap (take 31) (last ∙ sym (append_assoc (rev new) (rev old) (o ∷ [])))
    ∙ take_prefix 31 (rev new ++ rev old) (o ∷ []) l

last-part : (h new : List ℕ) → length new ≤ 31 → take 32 h ≡ rev new ++ rev [] → take 31 h ≡ rev new
unfolding rev
last-part h new n last =
    sym (take-take-suc 31 h)
    ∙ ap (take 31) (last ∙ append-nil (rev new))
    ∙ take_short 31 (rev new) (omega (arith, length-rev new))

init-Rolls : (initial low high : ℕ) → Rolls [] (init initial low high)
unfolding init zeros rev take
init-Rolls initial low high = record {
  new = [];
  old = zeros 32;
  kept = [];
  split = refl;
  at = refl;
  room = refl;
  opening = omega arith;
  counted = refl;
  fill = inr refl;
  last = refl;
}

-- The record of a latency, by what is old: the ring wraps where only its last slot is.
module _ (x : ℕ) (h : List ℕ) (e : TimeoutEstimator) (new : List ℕ)
    (at : length new ≡ e.index) where
  wrap :
      (o : ℕ) (kept : List ℕ)
      → e.buffer ≡ new ++ (o ∷ [])
      → length new + 1 ≡ 32
      → e.count ≡ length new + length kept
      → (kept ≡ o ∷ []) ⊎ (kept ≡ [])
      → take 32 h ≡ rev new ++ rev kept
      → Rolls (x ∷ h) (record_latency (some x) e)
  unfolding record_latency take rev
  wrap o kept split room counted fill last =
      let n : length new ≡ 31 = omega arith in
      let full : take 31 h ≡ rev new = elim fill [
        | inl f ↦ last-full h new [] o (omega arith) (rw f at last) ∙ append-nil (rev new)
        | inr f ↦ last-part h new (omega arith) (rw f at last)
      ] in
      record {
        new = [];
        old = new ++ (x ∷ []);
        kept = new ++ (x ∷ []);
        split =
            ap (λ i. put i x e.buffer) (sym at)
            ∙ ap (put (length new) x) split
            ∙ put-append new [] o x
            ∙ append-nil (new ++ (x ∷ []));
        at = omega arith;
        room = omega (arith, length-snoc new x);
        opening = omega (arith, length-snoc new x);
        counted = elim fill [
          | inl f ↦ ground (arith, length-snoc new x, rw f at counted)
          | inr f ↦ ground (arith, length-snoc new x, rw f at counted)
        ];
        fill = inl refl;
        last = ap (λ r. x ∷ r) full ∙ sym (rev-append new x);
      }

  forward :
      (o o' : ℕ) (old kept : List ℕ)
      → e.buffer ≡ new ++ (o ∷ o' ∷ old)
      → length new + (2 + length old) ≡ 32
      → e.count ≡ length new + length kept
      → (kept ≡ o ∷ o' ∷ old) ⊎ (kept ≡ [])
      → take 32 h ≡ rev new ++ rev kept
      → Rolls (x ∷ h) (record_latency (some x) e)
  unfolding record_latency take rev
  forward o o' old kept split room counted fill last =
      let new' = new ++ (x ∷ []) in
      let split' : put e.index x e.buffer ≡ new' ++ (o' ∷ old) =
        ap (λ i. put i x e.buffer) (sym at)
        ∙ ap (put (length new) x) split
        ∙ put-append new (o' ∷ old) o x in
      let at' : length new' ≡ (e.index + 1) % 32 = omega (arith, at, length-snoc new x) in
      let room' : length new' + suc (length old) ≡ 32 = omega (arith, length-snoc new x) in
      elim fill [
        | inl f ↦ record {
          new = new';
          old = o' ∷ old;
          kept = o' ∷ old;
          split = split';
          at = at';
          room = room';
          opening = omega arith;
          fill = inl refl;
          counted = ground (arith, length-snoc new x, rw f at counted);
          last =
              ap (λ r. x ∷ r) (last-full h new (o' ∷ old) o (omega arith) (rw f at last))
              ∙ ap (λ r. r ++ rev (o' ∷ old)) (sym (rev-append new x));
        }
        | inr f ↦ record {
          new = new';
          old = o' ∷ old;
          kept = [];
          split = split';
          at = at';
          room = room';
          opening = omega arith;
          fill = inr refl;
          counted = ground (arith, length-snoc new x, rw f at counted);
          last =
              ap (λ r. x ∷ r) (last-part h new (omega arith) (rw f at last))
              ∙ sym (append-nil (x ∷ rev new))
              ∙ ap (λ r. r ++ []) (sym (rev-append new x));
        }
      ]

  by_old :
      (old kept : List ℕ)
      → e.buffer ≡ new ++ old
      → length new + length old ≡ 32
      → 0 < length old
      → e.count ≡ length new + length kept
      → (kept ≡ old) ⊎ (kept ≡ [])
      → take 32 h ≡ rev new ++ rev kept
      → Rolls (x ∷ h) (record_latency (some x) e)
  by_old [] kept split room opening counted fill last = ground arith
  by_old (o ∷ []) kept split room opening counted fill last =
      wrap o kept split (omega arith) counted fill last
  by_old (o ∷ o' ∷ old) kept split room opening counted fill last =
      forward o o' old kept split (omega arith) counted fill last

pub record_all-Rolls :
    (initial low high : ℕ) (latencies : List (Option ℕ))
    → Rolls (usable latencies) (record_all latencies (init initial low high))
unfolding record_all record_latency
record_all-Rolls initial low high [] = init-Rolls initial low high
record_all-Rolls initial low high (none ∷ latencies) = record_all-Rolls initial low high latencies
record_all-Rolls initial low high (some x ∷ latencies) =
    let e = record_all latencies (init initial low high) in
    let r = record_all-Rolls initial low high latencies in
    by_old x (usable latencies) e r.new r.at r.old r.kept r.split r.room r.opening r.counted r.fill
      r.last
