-- ===== src/Outbox/Leasing.antt =====
-- What a claim of outbox/memory.py does to the stored rows, and what its lease and its count of
-- attempts guard.
use grelmicro.Prelude.{
  ℕ, ◌≡◌, refl, Bool, true, Option, none, some, String, List, [], ◌∷◌, nat_beq, map, if◌then◌else◌,
  string_eq, nat_eq, contains, arith, Bool-cases, inl, inr, nat_beq_iff, ap,
}
use grelmicro.Dict.{Dict, lookup, insert, lookup-insert, Unique, insert-Unique}
use grelmicro.Outbox.{
  OutboxRecord, Row, Outbox, is_due, due_rows, sort, leased, claim_rows, claim, complete,
  reschedule, selected,
}
use grelmicro.Outbox.Claiming.{
  due_rows-IsDue, All, All-sort, All-take, ids, row_ids, IsKeyed, IsValid, IsDue, handed,
  claim_rows-handed,
}

abbrev pub leased_row : ℕ → ℕ → Option Row → Option Row
leased_row now lease none = none
leased_row now lease (some row) = some (leased now lease row)

abbrev pub IsStored : Dict ℕ Row → Row → Type 0
IsStored rows row = lookup row.message.id rows ≡ some row

IsStored-cons :
    (id : ℕ) (row : Row) (rows : Dict ℕ Row) (due : List Row)
    → lookup id rows ≡ none
    → All (IsStored rows) due
    → All (IsStored ((id, row) ∷ rows)) due
unfolding lookup
IsStored-cons id row rows [] new h = tt
IsStored-cons id row rows (r ∷ due) new h =
    (ground (arith, h.0, nat_beq_iff id r.message.id), IsStored-cons id row rows due new h.1)

due_rows-IsStored :
    (topics : List String) (now : ℕ) (rows : Dict ℕ Row)
    → Unique rows
    → IsKeyed rows
    → All (IsStored rows) (due_rows topics now rows)
unfolding due_rows lookup
due_rows-IsStored topics now [] u k = tt
due_rows-IsStored topics now ((id, row) ∷ rows) u k =
    let rest =
      IsStored-cons id row rows (due_rows topics now rows) u.0
        (due_rows-IsStored topics now rows u.1 k.1) in
    elim (Bool-cases (is_due topics now row)) [
      | inl due ↦ rw due (ground (arith, nat_beq_iff id row.message.id), rest)
      | inr other ↦ rw other rest
    ]

pub selected-IsStored :
    (topics : List String) (limit now : ℕ) (box : Outbox)
    → IsValid box
    → All (IsStored box.rows) (selected topics limit now box.rows)
selected-IsStored topics limit now box v =
    All-take (IsStored box.rows) limit (sort (due_rows topics now box.rows)) (
      All-sort (IsStored box.rows) (due_rows topics now box.rows)
        (due_rows-IsStored topics now box.rows v.unique v.keyed))

claim_rows-lookup :
    (now lease m : ℕ) (stored : Dict ℕ Row) (due : List Row) (rows : Dict ℕ Row)
    → All (IsStored stored) due
    → lookup m (claim_rows now lease due rows).1
      ≡ (if contains (row_ids due) m then leased_row now lease (lookup m stored) else lookup m rows)
unfolding claim_rows contains
claim_rows-lookup now lease m stored [] rows h = refl
claim_rows-lookup now lease m stored (row ∷ due) rows h = ground (
  arith,
  claim_rows-lookup now lease m stored due (insert row.message.id (leased now lease row) rows) h.1,
  lookup-insert row.message.id m (leased now lease row) rows,
  nat_beq_iff row.message.id m,
  h.0,
)

-- A claim leases exactly the rows that it selects: each of them is being processed, counts one
-- attempt more and is out of reach until the lease ends; every other row stays as it was.
pub lookup-claim :
    (topics : List String) (limit lease now m : ℕ) (box : Outbox)
    → IsValid box
    → lookup m (claim topics limit lease now box).1.rows ≡ (
        if contains (row_ids (selected topics limit now box.rows)) m
        then leased_row now lease (lookup m box.rows)
        else lookup m box.rows)
unfolding claim
lookup-claim topics limit lease now m box v =
    claim_rows-lookup now lease m box.rows (selected topics limit now box.rows) box.rows
      (selected-IsStored topics limit now box v)

-- Under the order that `claim` keeps: rows stand under their ids, each id once.
pub insert-IsKeyed :
    (row : Row) (rows : Dict ℕ Row) → IsKeyed rows → IsKeyed (insert row.message.id row rows)
unfolding insert
insert-IsKeyed row [] k = (refl, tt)
insert-IsKeyed row ((id, r) ∷ rows) k =
    ground (arith, insert-IsKeyed row rows k.1, nat_beq_iff id row.message.id)

claim_rows-valid :
    (now lease : ℕ) (due : List Row) (rows : Dict ℕ Row)
    → Unique rows × IsKeyed rows
    → Unique (claim_rows now lease due rows).1 × IsKeyed (claim_rows now lease due rows).1
unfolding claim_rows
claim_rows-valid now lease [] rows h = h
claim_rows-valid now lease (row ∷ due) rows h =
    claim_rows-valid now lease due (insert row.message.id (leased now lease row) rows) (
      insert-Unique row.message.id (leased now lease row) rows h.0,
      insert-IsKeyed (leased now lease row) rows h.1,
    )

pub claim-IsValid :
    (topics : List String) (limit lease now : ℕ) (box : Outbox)
    → IsValid box
    → IsValid (claim topics limit lease now box).1
unfolding claim
claim-IsValid topics limit lease now box v =
    let (u, k) =
      claim_rows-valid now lease (selected topics limit now box.rows) box.rows
        (v.unique, v.keyed) in
    record { unique = u; keyed = k }

-- A row among the selected ones is stored and due.
find-IsDue :
    (m now : ℕ) (topics : List String) (stored : Dict ℕ Row) (due : List Row)
    → All (IsStored stored) due
    → All (IsDue topics now) due
    → contains (row_ids due) m ≡ true
    → (r : Row) × (lookup m stored ≡ some r) × IsDue topics now r
unfolding contains
find-IsDue m now topics stored [] h d c = absurd (cc)
find-IsDue m now topics stored (row ∷ due) h d c = elim (Bool-cases (nat_beq row.message.id m)) [
  | inl same ↦ (row, ground (arith, nat_beq_iff row.message.id m, h.0), d.0)
  | inr other ↦ find-IsDue m now topics stored due h.1 d.1 (ground arith)
]

ids-handed : (due : List Row) → ids (map handed due) ≡ row_ids due
ids-handed [] = refl
ids-handed (row ∷ due) = ap (◌∷◌ row.message.id) (ids-handed due)

pub selected-IsDue :
    (topics : List String) (limit now m : ℕ) (box : Outbox)
    → IsValid box
    → contains (row_ids (selected topics limit now box.rows)) m ≡ true
    → (r : Row) × (lookup m box.rows ≡ some r) × IsDue topics now r
selected-IsDue topics limit now m box v =
    find-IsDue m now topics box.rows (selected topics limit now box.rows)
      (selected-IsStored topics limit now box v)
      (All-take (IsDue topics now) limit (sort (due_rows topics now box.rows)) (
        All-sort (IsDue topics now) (due_rows topics now box.rows)
          (due_rows-IsDue topics now box.rows)))

-- `m` is among the messages that a claim hands out.
abbrev pub Handed : ℕ → List OutboxRecord → Type 0
Handed m claimed = contains (ids claimed) m ≡ true

pub Handed-selected :
    (topics : List String) (limit lease now m : ℕ) (box : Outbox)
    → Handed m (claim topics limit lease now box).0
    → contains (row_ids (selected topics limit now box.rows)) m ≡ true
unfolding claim
Handed-selected topics limit lease now m box h =
    rw
      (
        claim_rows-handed now lease (selected topics limit now box.rows) box.rows,
        ids-handed (selected topics limit now box.rows),
      )
      at h

-- A claim fences off whoever was handed the message before: with the count of attempts that the
-- row had, a completion or a rescheduling of the message changes nothing.
pub claim_fences :
    (topics : List String) (limit lease now m : ℕ) (row : Row) (box : Outbox)
    → IsValid box
    → lookup m box.rows ≡ some row
    → Handed m (claim topics limit lease now box).0
    → (let box' = (claim topics limit lease now box).1 in
        ((keep : Bool) (later : ℕ) → complete m row.attempts keep later box' ≡ box')
        × ((delay : ℕ) (error : String) (is_dead : Bool) (later : ℕ)
            → reschedule m row.attempts delay error is_dead later box' ≡ box'))
unfolding complete reschedule
claim_fences topics limit lease now m row box v e h =
    let held = Handed-selected topics limit lease now m box h in
    let after = lookup-claim topics limit lease now m box v in
    (λ keep later. ground arith, λ delay error is_dead later. ground arith)
