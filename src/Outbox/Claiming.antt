-- ===== src/Outbox/Claiming.antt =====
-- What `claim` of outbox/memory.py hands out, and what the lease and the attempt count guard.
use grelmicro.Prelude.{
  ℕ, zero, suc, ◌+◌, ◌≤◌, ◌≡◌, refl, true, false, String, List, [], ◌∷◌, map, string_eq, nat_eq,
  take, contains, length, length-take-le, arith, Bool-cases, inl, inr,
}
use grelmicro.Dict.{Dict, insert, Unique}
use grelmicro.Outbox.{
  OutboxRecord, Row, Outbox, due_rows, before, place, sort, leased, claim_rows, claim, is_open,
  selected,
}

abbrev pub All : (Row → Type 0) → List Row → Type 0
All P [] = Unit
All P (r ∷ rows) = P r × All P rows

abbrev pub ids : List OutboxRecord → List ℕ
ids = map (λ m. m.id)

abbrev pub row_ids : List Row → List ℕ
row_ids = map (λ r. r.message.id)

-- The rows of an outbox stand under their messages' ids.
abbrev pub IsKeyed : Dict ℕ Row → Type 0
IsKeyed [] = Unit
IsKeyed ((id, row) ∷ rows) = (row.message.id ≡ id) × IsKeyed rows

pub record IsValid (box : Outbox) : Type 0 where
  pub unique : Unique box.rows
  pub keyed : IsKeyed box.rows

abbrev pub IsDue : List String → ℕ → Row → Type 0
IsDue topics now row =
    (contains topics row.message.topic ≡ true)
    × (is_open row.state ≡ true)
    × (row.available_at ≤ now)

pub due_rows-IsDue :
    (topics : List String) (now : ℕ) (rows : Dict ℕ Row)
    → All (IsDue topics now) (due_rows topics now rows)
unfolding due_rows
due_rows-IsDue topics now [] = tt
due_rows-IsDue topics now ((id, row) ∷ rows) = ground (arith, due_rows-IsDue topics now rows)

module _ (P : Row → Type 0) where
  pub All-place : (row : Row) (rows : List Row) → P row → All P rows → All P (place row rows)
  unfolding place
  All-place row [] p h = (p, tt)
  All-place row (r ∷ rows) p h = elim (Bool-cases (before row r)) [
    | inl first ↦ rw first (p, h)
    | inr later ↦ rw later (h.0, All-place row rows p h.1)
  ]

  pub All-sort : (rows : List Row) → All P rows → All P (sort rows)
  unfolding sort
  All-sort [] h = tt
  All-sort (row ∷ rows) h = All-place row (sort rows) h.0 (All-sort rows h.1)

  pub All-take : (n : ℕ) (rows : List Row) → All P rows → All P (take n rows)
  unfolding take
  All-take zero rows h = tt
  All-take (suc n) [] h = tt
  All-take (suc n) (row ∷ rows) h = (h.0, All-take n rows h.1)

-- `sorted` sorts: no row stands before one that `before` puts ahead of it.
abbrev pub IsSorted : List Row → Type 0
IsSorted [] = Unit
IsSorted (row ∷ rows) = All (λ r. before row r ≡ true) rows × IsSorted rows

before_trans : (a b c : Row) → before a b ≡ true → before b c ≡ true → before a c ≡ true
before_trans a b c p q = ground arith

before_total : (a b : Row) → before a b ≡ false → before b a ≡ true
before_total a b p = ground arith

All-before :
    (a b : Row) (rows : List Row)
    → before a b ≡ true
    → All (λ r. before b r ≡ true) rows
    → All (λ r. before a r ≡ true) rows
All-before a b [] p h = tt
All-before a b (r ∷ rows) p h = (before_trans a b r p h.0, All-before a b rows p h.1)

place-IsSorted : (row : Row) (rows : List Row) → IsSorted rows → IsSorted (place row rows)
unfolding place
place-IsSorted row [] h = (tt, tt)
place-IsSorted row (r ∷ rows) h = elim (Bool-cases (before row r)) [
  | inl first ↦ rw first ((first, All-before row r rows first h.0), h)
  | inr later ↦ rw later (
    All-place (λ x. before r x ≡ true) row rows (before_total row r later) h.0,
    place-IsSorted row rows h.1,
  )
]

sort-IsSorted : (rows : List Row) → IsSorted (sort rows)
unfolding sort
sort-IsSorted [] = tt
sort-IsSorted (row ∷ rows) = place-IsSorted row (sort rows) (sort-IsSorted rows)

take-IsSorted : (n : ℕ) (rows : List Row) → IsSorted rows → IsSorted (take n rows)
unfolding take
take-IsSorted zero rows h = tt
take-IsSorted (suc n) [] h = tt
take-IsSorted (suc n) (row ∷ rows) h =
    (All-take (λ r. before row r ≡ true) n rows h.0, take-IsSorted n rows h.1)

-- What `claim` hands out for a row: the stored message with one attempt more.
abbrev pub handed : Row → OutboxRecord
handed row = record row.message { attempts = row.attempts + 1 }

pub claim_rows-handed :
    (now lease : ℕ) (due : List Row) (rows : Dict ℕ Row)
    → (claim_rows now lease due rows).0 ≡ map handed due
unfolding claim_rows
claim_rows-handed now lease [] rows = refl
claim_rows-handed now lease (row ∷ due) rows =
    rw (claim_rows-handed now lease due (insert row.message.id (leased now lease row) rows))

-- `claim` hands out the messages of at most `limit` rows, ordered by availability and then id, each
-- of a requested topic, pending or processing, and available by now; it adds one to the attempts
-- that each row has stored.
pub claim-eq-handed :
    (topics : List String) (limit lease now : ℕ) (box : Outbox)
    → (let due = selected topics limit now box.rows in
        ((claim topics limit lease now box).0 ≡ map handed due)
        × (length due ≤ limit)
        × IsSorted due
        × All (IsDue topics now) due)
unfolding claim
claim-eq-handed topics limit lease now box = (
  claim_rows-handed now lease (selected topics limit now box.rows) box.rows,
  length-take-le limit (sort (due_rows topics now box.rows)),
  take-IsSorted limit (sort (due_rows topics now box.rows))
      (sort-IsSorted (due_rows topics now box.rows)),
  All-take (IsDue topics now) limit (sort (due_rows topics now box.rows)) (
      All-sort (IsDue topics now) (due_rows topics now box.rows)
        (due_rows-IsDue topics now box.rows)),
)
