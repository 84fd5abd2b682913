-- ===== src/Outbox/Tests.antt =====
-- Runs of the in-memory outbox, and its theorems at concrete inputs.
use grelmicro.Prelude.{
  inr, ℕ, ◌≤◌, ◌≡◌, refl, Bool, true, false, Option, none, some, String, List, [], ◌∷◌, map,
  if◌then◌else◌, string_eq, nat_eq, take, contains, length, arith,
}
use grelmicro.Dict.{lookup, insert}
use grelmicro.Outbox
use grelmicro.Outbox.{
  OutboxRecord, RowState, pending, processing, delivered, dead, Row, init, due_rows, sort, place,
  claim_rows, doomed, Terminal, selected, any_row, redrive_rows,
}
use grelmicro.Outbox.Claiming.{IsValid, row_ids, handed, IsSorted, IsDue, All, claim-eq-handed}
use grelmicro.Outbox.Leasing.{leased_row, Handed, lookup-claim, claim_fences}
use grelmicro.Outbox.Excluding.{run_excludes}
use grelmicro.Outbox.Operations.{
  Operation, purge, reschedule, enqueue, claim, complete, redrive, run, apply, run-IsSound, IsSound,
}

abbrev topics : List String
topics = "mail" ∷ []

abbrev message : ℕ → Option String → OutboxRecord
message id dedup_key = record {
  id = id;
  topic = "mail";
  payload = "{}";
  key = none;
  headers = "{}";
  dedup_key = dedup_key;
  available_at = none;
  attempts = 0;
}

abbrev row : RowState → ℕ → Row
row state attempts = record {
  message = message 7 (some "k");
  state = state;
  attempts = attempts;
  available_at = 5;
  created_at = 5;
  last_error = none;
  delivered_at = none;
}

abbrev box : RowState → ℕ → Outbox.Outbox
box state attempts = record { rows = (7, row state attempts) ∷ []; wake = false }

box-IsValid : (state : RowState) (attempts : ℕ) → IsValid (box state attempts)
unfolding lookup
box-IsValid state attempts = record { unique = (refl, tt); keyed = (refl, tt) }

-- A second message with the key is refused; the first is delivered, and purged.
story :
    run
      (enqueue (message 7 (some "k")) 5
        ∷ enqueue (message 8 (some "k")) 6
        ∷ claim topics 10 30 9
        ∷ complete 7 1 true 12
        ∷ [])
      init
    ≡ record {
      rows = (7, record (row delivered 1) { available_at = 39; delivered_at = some 12 }) ∷ [];
      wake = true;
    }
unfolding run apply Outbox.enqueue Outbox.claim Outbox.complete any_row due_rows sort place
    claim_rows lookup insert take contains
story = refl

claim-eq-handed_example :
    (let due = selected topics 10 9 (box pending 0).rows in
      ((Outbox.claim topics 10 30 9 (box pending 0)).0 ≡ map handed due)
      × (length due ≤ 10)
      × IsSorted due
      × All (IsDue topics 9) due)
claim-eq-handed_example = claim-eq-handed topics 10 30 9 (box pending 0)

lookup-claim_example : lookup 7 (Outbox.claim topics 10 30 9 (box pending 0)).1.rows ≡ (
    if contains (row_ids (selected topics 10 9 (box pending 0).rows)) 7
    then leased_row 9 30 (lookup 7 (box pending 0).rows)
    else lookup 7 (box pending 0).rows)
lookup-claim_example = lookup-claim topics 10 30 9 7 (box pending 0) (box-IsValid pending 0)

-- Another claim, another message's completion, a stale rescheduling, a redrive and a purge.
abbrev between : List Operation
between =
    claim topics 3 30 20
    ∷ complete 8 1 false 21
    ∷ reschedule 7 0 0 "late" false 22
    ∷ redrive none 23
    ∷ purge none (record { with_delivered = true; with_dead = true })
    ∷ []

run_excludes_example :
    ¬ Handed 7
      (Outbox.claim topics 5 30 38 (run between (Outbox.claim topics 10 30 9 (box pending 0)).1)).0
unfolding Outbox.claim claim_rows due_rows sort place take contains lookup
run_excludes_example =
    run_excludes topics topics 10 5 30 30 9 38 7 (row pending 0) between (box pending 0)
      (box-IsValid pending 0) refl refl
      (omega arith, (tt, (inr (λ e. ground (arith, e)), (tt, (tt, tt))))) (omega arith)

claim_fences_example :
    (let box' = (Outbox.claim topics 10 30 9 (box processing 1)).1 in
      ((keep : Bool) (later : ℕ) → Outbox.complete 7 1 keep later box' ≡ box')
      × ((delay : ℕ) (error : String) (is_dead : Bool) (later : ℕ)
          → Outbox.reschedule 7 1 delay error is_dead later box' ≡ box'))
unfolding Outbox.claim claim_rows due_rows sort place take contains lookup
claim_fences_example =
    claim_fences topics 10 30 9 7 (row processing 1) (box processing 1) (box-IsValid processing 1)
      refl refl

init-IsSound : IsSound init
unfolding lookup
init-IsSound = record {
  valid = record { unique = tt; keyed = tt };
  deduped = λ i j key p q. absurd (cc);
}

run-IsSound_example : IsSound (run (enqueue (message 7 (some "k")) 5 ∷ redrive none 6 ∷ []) init)
run-IsSound_example =
    run-IsSound (enqueue (message 7 (some "k")) 5 ∷ redrive none 6 ∷ []) init init-IsSound

abbrev all_terminal : Terminal
all_terminal = record { with_delivered = true; with_dead = true }
