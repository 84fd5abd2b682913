-- ===== src/Outbox.antt =====
-- `MemoryOutboxAdapter` of outbox/memory.py. The rows are a dictionary by message id, a UUID read
-- as the number of its 128 bits, which is how Python orders UUIDs. The wall clock is a number of
-- microseconds.
pub mod Claiming
pub mod Leasing
pub mod Lifecycle
pub mod Operations
pub mod Excluding
pub mod Registry
pub mod Relay
mod Tests
use grelmicro.Prelude.{
  ℕ, zero, suc, ◌+◌, Bool, true, false, not, ◌&&◌, ◌||◌, Option, none, some, String, List, [], ◌∷◌,
  ltb, leb, ◌==◌, nat_beq, if◌then◌else◌, string_eq, nat_eq, take, contains, length,
}
use grelmicro.Dict.{Dict, lookup, insert, remove, remove_all}

-- The payload and the headers are carried unread: each stands for its JSON text.
pub record OutboxRecord : Type 0 where
  pub id : ℕ
  pub topic : String
  pub payload : String
  pub key : Option String
  pub headers : String
  pub dedup_key : Option String
  pub available_at : Option ℕ
  pub attempts : ℕ

pub data RowState : Type 0 where
  pending processing delivered dead : RowState

pub record Row : Type 0 where
  pub message : OutboxRecord
  pub state : RowState
  pub attempts : ℕ
  pub available_at : ℕ
  pub created_at : ℕ
  pub last_error : Option String
  pub delivered_at : Option ℕ

pub record Outbox : Type 0 where
  pub rows : Dict ℕ Row
  pub wake : Bool

abbrev pub init : Outbox
init = record { rows = []; wake = false }

-- `row.record.dedup_key == key`
abbrev pub has_dedup_key : String → Row → Bool
has_dedup_key key row = elim row.message.dedup_key [ none ↦ false | some k ↦ k == key ]

-- `any(... for row in self._rows.values())`
unfoldable pub any_row : (Row → Bool) → Dict ℕ Row → Bool
any_row p [] = false
any_row p ((id, row) ∷ rows) = p row || any_row p rows

abbrev pub is_duplicate : Option String → Dict ℕ Row → Bool
is_duplicate none rows = false
is_duplicate (some key) rows = any_row (has_dedup_key key) rows

abbrev pub or_now : Option ℕ → ℕ → ℕ
or_now none now = now
or_now (some t) now = t

unfoldable pub enqueue : OutboxRecord → ℕ → Outbox → Bool × Outbox
enqueue message now box = if is_duplicate message.dedup_key box.rows then (false, box) else (
  true,
  record {
    rows =
        insert message.id
          (record {
            message = message;
            state = pending;
            attempts = 0;
            available_at = or_now message.available_at now;
            created_at = now;
            last_error = none;
            delivered_at = none;
          })
          box.rows;
    wake = true;
  },
)

abbrev pub is_open : RowState → Bool
is_open pending = true
is_open processing = true
is_open _ = false

-- The filter of `claim`.
abbrev pub is_due : List String → ℕ → Row → Bool
is_due topics now row =
    contains topics row.message.topic && is_open row.state && leb row.available_at now

unfoldable pub due_rows : List String → ℕ → Dict ℕ Row → List Row
due_rows topics now [] = []
due_rows topics now ((id, row) ∷ rows) =
    let rest = due_rows topics now rows in if is_due topics now row then row ∷ rest else rest

-- The key of `sorted`, in its lexicographic order.
abbrev pub before : Row → Row → Bool
before a b =
    ltb a.available_at b.available_at
    || (nat_beq a.available_at b.available_at && leb a.message.id b.message.id)

unfoldable pub place : Row → List Row → List Row
place row [] = row ∷ []
place row (r ∷ rows) =
    let rest = place row rows in if before row r then row ∷ r ∷ rows else r ∷ rest

-- `sorted`
unfoldable pub sort : List Row → List Row
sort [] = []
sort (row ∷ rows) = place row (sort rows)

abbrev pub leased : ℕ → ℕ → Row → Row
leased now lease row = record row {
  state = processing;
  attempts = row.attempts + 1;
  available_at = now + lease;
}

-- The loop of `claim`: the rows are the objects of the dictionary.
unfoldable pub claim_rows : ℕ → ℕ → List Row → Dict ℕ Row → List OutboxRecord × Dict ℕ Row
claim_rows now lease [] rows = ([], rows)
claim_rows now lease (row ∷ due) rows =
    let row' = leased now lease row in
    let (claimed, rows') = claim_rows now lease due (insert row.message.id row' rows) in
    (record row.message { attempts = row'.attempts } ∷ claimed, rows')

abbrev pub selected : List String → ℕ → ℕ → Dict ℕ Row → List Row
selected topics limit now rows = take limit (sort (due_rows topics now rows))

unfoldable pub claim : List String → ℕ → ℕ → ℕ → Outbox → List OutboxRecord × Outbox
claim topics limit lease now box =
    let (claimed, rows) = claim_rows now lease (selected topics limit now box.rows) box.rows in
    (claimed, record box { rows = rows })

unfoldable pub complete : ℕ → ℕ → Bool → ℕ → Outbox → Outbox
complete id attempts keep now box = elim (lookup id box.rows) [
  | none ↦ box
  | some row ↦
      if nat_beq row.attempts attempts
      then (if keep
          then record box {
            rows =
                insert id
                  (record row { state = delivered; last_error = none; delivered_at = some now })
                  box.rows;
          }
          else record box { rows = remove id box.rows })
      else box
]

unfoldable pub reschedule : ℕ → ℕ → ℕ → String → Bool → ℕ → Outbox → Outbox
reschedule id attempts delay error is_dead now box = elim (lookup id box.rows) [
  | none ↦ box
  | some row ↦
      if nat_beq row.attempts attempts
      then record box {
        rows =
            insert id
              (if is_dead
                then record row { last_error = some error; state = dead }
                else record row {
                  last_error = some error;
                  state = pending;
                  available_at = now + delay;
                })
              box.rows;
      }
      else box
]

abbrev pub is_dead : RowState → Bool
is_dead dead = true
is_dead _ = false

abbrev pub on_topic : Option String → Row → Bool
on_topic none row = true
on_topic (some topic) row = row.message.topic == topic

unfoldable pub redrive_rows : Option String → ℕ → Dict ℕ Row → ℕ × Dict ℕ Row
redrive_rows topic now [] = (0, [])
redrive_rows topic now ((id, row) ∷ rows) =
    let (moved, rest) = redrive_rows topic now rows in
    if is_dead row.state && on_topic topic row
    then (
      moved + 1,
      (id, record row { state = pending; attempts = 0; available_at = now; last_error = none })
          ∷ rest,
    )
    else (moved, (id, row) ∷ rest)

unfoldable pub redrive : Option String → ℕ → Outbox → ℕ × Outbox
redrive topic now box =
    let (moved, rows) = redrive_rows topic now box.rows in
    (moved, record { rows = rows; wake = box.wake || ltb 0 moved })

-- `states`: the terminal states to purge.
pub record Terminal : Type 0 where
  pub with_delivered : Bool
  pub with_dead : Bool

abbrev pub in_states : Terminal → RowState → Bool
in_states t delivered = t.with_delivered
in_states t dead = t.with_dead
in_states t _ = false

-- `cutoff is None or (row.delivered_at or row.created_at) < cutoff`
abbrev pub is_before : Option ℕ → Row → Bool
is_before none row = true
is_before (some cutoff) row = ltb (or_now row.delivered_at row.created_at) cutoff

unfoldable pub doomed : Terminal → Option ℕ → Dict ℕ Row → List ℕ
doomed states cutoff [] = []
doomed states cutoff ((id, row) ∷ rows) =
    let rest = doomed states cutoff rows in
    if in_states states row.state && is_before cutoff row then id ∷ rest else rest

-- `before_seconds` as the cutoff that it sets.
unfoldable pub purge : Option ℕ → Terminal → Outbox → ℕ × Outbox
purge cutoff states box =
    let ids = doomed states cutoff box.rows in
    (length ids, record box { rows = remove_all ids box.rows })
