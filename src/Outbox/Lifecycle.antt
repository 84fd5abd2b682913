-- ===== src/Outbox/Lifecycle.antt =====
-- The life of a row of outbox/memory.py: what every sequence of operations keeps, and what `redrive`
-- and `purge` do.
use grelmicro.Prelude.{
  ℕ, ◌≡◌, ◌≢◌, refl, Bool, false, ◌&&◌, Option, none, some, String, List, [], ◌∷◌, nat_beq,
  if◌then◌else◌, string_eq, nat_eq, arith, Bool-cases, inl, inr, nat_beq_iff, eq_iff,
}
use grelmicro.Dict.{Dict, lookup, lookup-insert, lookup-remove, lookup-remove_all}
use grelmicro.Outbox.{
  OutboxRecord, pending, Row, Outbox, enqueue, claim, complete, reschedule, redrive, redrive_rows,
  purge, doomed, Terminal, is_dead, on_topic, any_row, has_dedup_key,
}
use grelmicro.Outbox.Claiming.{IsValid}
use grelmicro.Outbox.Leasing.{lookup-claim}

-- The deduplication key stored under an id.
abbrev pub key_of : Option Row → Option String
key_of none = none
key_of (some row) = row.message.dedup_key

abbrev pub IsDeduped : Dict ℕ Row → Type 0
IsDeduped rows =
    (i j : ℕ) (key : String)
    → key_of (lookup i rows) ≡ some key
    → key_of (lookup j rows) ≡ some key
    → i ≡ j

any_row-false :
    (m : ℕ) (key : String) (rows : Dict ℕ Row)
    → any_row (has_dedup_key key) rows ≡ false
    → key_of (lookup m rows) ≢ some key
unfolding any_row lookup
any_row-false m key [] h e = cc
any_row-false m key ((id, row) ∷ rows) h e = elim (Bool-cases (nat_beq id m)) [
  | inl same ↦ ground (arith, eq_iff key key)
  | inr other ↦ any_row-false m key rows (ground arith) (ground arith)
]

pub enqueue-IsDeduped :
    (message : OutboxRecord) (now : ℕ) (box : Outbox)
    → IsDeduped box.rows
    → IsDeduped (enqueue message now box).1.rows
unfolding enqueue
enqueue-IsDeduped message now box h i j key p q = grind (
  arith,
  h i j key,
  lookup-insert,
  nat_beq_iff message.id i,
  nat_beq_iff message.id j,
  any_row-false i key box.rows,
  any_row-false j key box.rows,
)

-- What an operation that adds no message leaves of the keys.
abbrev pub Shrinks : Dict ℕ Row → Dict ℕ Row → Type 0
Shrinks rows rows' =
    (m : ℕ) (key : String) → key_of (lookup m rows') ≡ some key → key_of (lookup m rows) ≡ some key

pub Shrinks-IsDeduped :
    (rows rows' : Dict ℕ Row) → Shrinks rows rows' → IsDeduped rows → IsDeduped rows'
Shrinks-IsDeduped rows rows' s h i j key p q = h i j key (s i key p) (s j key q)

pub claim-Shrinks :
    (topics : List String) (limit lease now : ℕ) (box : Outbox)
    → IsValid box
    → Shrinks box.rows (claim topics limit lease now box).1.rows
claim-Shrinks topics limit lease now box v m key e =
    ground (arith, lookup-claim topics limit lease now m box v)

pub complete-Shrinks :
    (id attempts : ℕ) (keep : Bool) (now : ℕ) (box : Outbox)
    → Shrinks box.rows (complete id attempts keep now box).rows
unfolding complete
complete-Shrinks id attempts keep now box m key e =
    grind (arith, lookup-insert, lookup-remove, nat_beq_iff id m)

pub reschedule-Shrinks :
    (id attempts delay : ℕ) (error : String) (is_dead : Bool) (now : ℕ) (box : Outbox)
    → Shrinks box.rows (reschedule id attempts delay error is_dead now box).rows
unfolding reschedule
reschedule-Shrinks id attempts delay error is_dead now box m key e =
    grind (arith, lookup-insert, nat_beq_iff id m)

abbrev pub redriven : Option String → ℕ → Row → Row
redriven topic now row =
    if is_dead row.state && on_topic topic row
    then record row { state = pending; attempts = 0; available_at = now; last_error = none }
    else row

abbrev pub redriven_row : Option String → ℕ → Option Row → Option Row
redriven_row topic now none = none
redriven_row topic now (some row) = some (redriven topic now row)

pub redriven_lookup :
    (topic : Option String) (now m : ℕ) (rows : Dict ℕ Row)
    → lookup m (redrive_rows topic now rows).1 ≡ redriven_row topic now (lookup m rows)
unfolding redrive_rows lookup
redriven_lookup topic now m [] = refl
redriven_lookup topic now m ((id, row) ∷ rows) = ground (arith, redriven_lookup topic now m rows)

-- `redrive` makes every dead row of the topic, or of every topic, pending with no attempts and no
-- error, and leaves every other row as it was.
pub lookup-redrive :
    (topic : Option String) (now m : ℕ) (box : Outbox)
    → lookup m (redrive topic now box).1.rows ≡ redriven_row topic now (lookup m box.rows)
unfolding redrive
lookup-redrive topic now m box = redriven_lookup topic now m box.rows

pub purge-Shrinks :
    (cutoff : Option ℕ) (states : Terminal) (box : Outbox)
    → Shrinks box.rows (purge cutoff states box).1.rows
unfolding purge
purge-Shrinks cutoff states box m key e =
    ground (arith, lookup-remove_all (doomed states cutoff box.rows) m box.rows)

pub redrive-Shrinks :
    (topic : Option String) (now : ℕ) (box : Outbox)
    → Shrinks box.rows (redrive topic now box).1.rows
redrive-Shrinks topic now box m key e = ground (arith, lookup-redrive topic now m box)
