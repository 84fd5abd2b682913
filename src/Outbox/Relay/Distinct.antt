-- ===== src/Outbox/Relay/Distinct.antt =====
-- The messages that a claim of outbox/memory.py hands out.
use grelmicro.Prelude.{
  ℕ, zero, suc, ◌≡◌, refl, false, ◌||◌, none, String, List, [], ◌∷◌, nat_beq, string_eq, nat_eq,
  contains, take, arith, Bool-cases, inl, inr, nat_beq_iff,
}
use grelmicro.Dict.{Dict, lookup, Unique}
use grelmicro.Outbox.{Row, Outbox, before, place, sort, due_rows, selected, is_due}
use grelmicro.Outbox.Claiming.{IsKeyed, IsValid, row_ids}

abbrev pub IsDistinct : List Row → Type 0
IsDistinct [] = Unit
IsDistinct (r ∷ rows) = (contains (row_ids rows) r.message.id ≡ false) × IsDistinct rows

due_rows-lacks :
    (topics : List String) (now id : ℕ) (rows : Dict ℕ Row)
    → IsKeyed rows
    → lookup id rows ≡ none
    → contains (row_ids (due_rows topics now rows)) id ≡ false
unfolding due_rows lookup contains
due_rows-lacks topics now id [] k e = refl
due_rows-lacks topics now id ((j, r) ∷ rows) k e = ground (
  arith,
  due_rows-lacks topics now id rows k.1,
  nat_beq_iff j id,
  nat_beq_iff r.message.id id,
  k.0,
)

due_rows-IsDistinct :
    (topics : List String) (now : ℕ) (rows : Dict ℕ Row)
    → Unique rows
    → IsKeyed rows
    → IsDistinct (due_rows topics now rows)
unfolding due_rows
due_rows-IsDistinct topics now [] u k = tt
due_rows-IsDistinct topics now ((j, r) ∷ rows) u k =
    let rest = due_rows-IsDistinct topics now rows u.1 k.1 in
    elim (Bool-cases (is_due topics now r)) [
      | inl due ↦ rw due ((rw (k.0) (due_rows-lacks topics now j rows k.1 u.0)), rest)
      | inr other ↦ rw other rest
    ]

contains-place :
    (r : Row) (rows : List Row) (x : ℕ)
    → contains (row_ids (place r rows)) x ≡ (nat_beq r.message.id x || contains (row_ids rows) x)
unfolding place contains
contains-place r [] x = refl
contains-place r (s ∷ rows) x = ground (arith, contains-place r rows x)

place-IsDistinct :
    (r : Row) (rows : List Row)
    → contains (row_ids rows) r.message.id ≡ false
    → IsDistinct rows
    → IsDistinct (place r rows)
unfolding place contains
place-IsDistinct r [] h d = (refl, tt)
place-IsDistinct r (s ∷ rows) h d = elim (Bool-cases (before r s)) [
  | inl first ↦ rw first (h, d)
  | inr later ↦ rw later (
    ground (
      arith,
      contains-place r rows s.message.id,
      nat_beq_iff r.message.id s.message.id,
      nat_beq_iff s.message.id r.message.id,
      d.0,
      h,
    ),
    place-IsDistinct r rows (ground (arith, h)) d.1,
  )
]

contains-sort :
    (rows : List Row) (x : ℕ) → contains (row_ids (sort rows)) x ≡ contains (row_ids rows) x
unfolding sort contains
contains-sort [] x = refl
contains-sort (r ∷ rows) x = ground (arith, contains-place r (sort rows) x, contains-sort rows x)

sort-IsDistinct : (rows : List Row) → IsDistinct rows → IsDistinct (sort rows)
unfolding sort
sort-IsDistinct [] d = tt
sort-IsDistinct (r ∷ rows) d =
    place-IsDistinct r (sort rows) (rw (contains-sort rows r.message.id) d.0)
      (sort-IsDistinct rows d.1)

take-lacks :
    (n : ℕ) (rows : List Row) (x : ℕ)
    → contains (row_ids rows) x ≡ false
    → contains (row_ids (take n rows)) x ≡ false
unfolding take contains
take-lacks zero rows x h = refl
take-lacks (suc n) [] x h = refl
take-lacks (suc n) (r ∷ rows) x h = ground (arith, take-lacks n rows x)

take-IsDistinct : (n : ℕ) (rows : List Row) → IsDistinct rows → IsDistinct (take n rows)
unfolding take
take-IsDistinct zero rows d = tt
take-IsDistinct (suc n) [] d = tt
take-IsDistinct (suc n) (r ∷ rows) d =
    (take-lacks n rows r.message.id d.0, take-IsDistinct n rows d.1)

pub selected-IsDistinct :
    (topics : List String) (limit now : ℕ) (box : Outbox)
    → IsValid box
    → IsDistinct (selected topics limit now box.rows)
selected-IsDistinct topics limit now box v =
    take-IsDistinct limit (sort (due_rows topics now box.rows)) (
      sort-IsDistinct (due_rows topics now box.rows)
        (due_rows-IsDistinct topics now box.rows v.unique v.keyed))
