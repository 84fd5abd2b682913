-- ===== src/Task/Expression/Field/Numbers.antt =====
-- The numbers that a part of a cron field of task/_cron.py selects.
use grelmicro.Prelude.{
  ℕ, zero, suc, ◌+◌, ◌-◌, ◌*◌, ◌/◌, ◌%◌, ◌≤◌, ◌<◌, ◌≡◌, ap, ◌∙◌, Bool, ◌&&◌, leb, ltb, nat_beq,
  nat_beq_iff, nat_eq, contains, arith, Bool-cases, inl, inr,
}
use grelmicro.Task.Expression.Field.{span}
use native.Mathlib.Nat.{mod-eq_of_lt, mod-eq-sub-mod, div-add-mod, mod-lt, zero-mod}

-- From the start to the end, by the step.
abbrev pub in_steps : ℕ → ℕ → ℕ → ℕ → Bool
in_steps start end step x = leb start x && leb x end && nat_beq ((x - start) % step) 0

mod-plus : (start step x : ℕ) → start + step ≤ x → (x - start) % step ≡ (x - (start + step)) % step
mod-plus start step x le =
    let e : x - start - step ≡ x - (start + step) = omega arith in
    let l : step ≤ x - start = omega arith in mod-eq-sub-mod l ∙ ap (λ m. m % step) e

mod-self_zero : (step x : ℕ) → (x - x) % step ≡ 0
mod-self_zero step x = let e : x - x ≡ 0 = omega arith in ap (λ m. m % step) e ∙ zero-mod step

contains-span :
    (n start step x : ℕ)
    → 0 < step
    → contains (span start step n) x
      ≡ (leb start x && nat_beq ((x - start) % step) 0 && ltb (x - start) (n * step))
unfolding span contains
contains-span zero start step x pos = ground arith
contains-span (suc n) start step x pos =
    let ih = contains-span n (start + step) step x pos in
    elim (Bool-cases (ltb x start)) [
      | inl below ↦ ground (arith, ih, below)
      | inr from ↦ elim (Bool-cases (ltb x (start + step))) [
        | inl near ↦
            let lt : x - start < step = ground (arith, near, pos) in
            ground (arith, ih, from, near, mod-eq_of_lt lt, nat_beq_iff start x)
        | inr far ↦
            ground (
              arith,
              ih,
              from,
              far,
              mod-plus start step x (ground (arith, far)),
              nat_beq_iff start x,
            )
      ]
    ]

quotient : (k step d : ℕ) → 0 < step → d % step ≡ 0 → d < (k / step + 1) * step → d ≤ k
quotient k step d pos exact lt = grind (arith, div-add-mod d step, div-add-mod k step)

-- `range(start, end + 1, step)` has the numbers from the start to the end, by the step.
pub contains-range :
    (start end step x : ℕ)
    → start ≤ end
    → 0 < step
    → contains (span start step ((end - start) / step + 1)) x ≡ in_steps start end step x
contains-range start end step x le pos = ground (
  arith,
  contains-span ((end - start) / step + 1) start step x pos,
  quotient (end - start) step (x - start) pos,
  div-add-mod (end - start) step,
  mod-lt (end - start) pos,
)
