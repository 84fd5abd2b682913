-- ===== src/Outbox/Operations.antt =====
-- Sequences of operations of outbox/memory.py: the rows, the keys, `purge`, and the fences after
-- `redrive`.
use grelmicro.Prelude.{
  ℕ, ◌≡◌, refl, Bool, false, ◌&&◌, Option, none, some, String, List, [], ◌∷◌, nat_beq,
  if◌then◌else◌, string_eq, nat_eq, contains, arith, Bool-cases, inl, inr, nat_beq_iff,
}
use grelmicro.Dict.{
  Dict, lookup, insert, remove, remove_all, lookup-remove, lookup-remove_all, Unique, insert-Unique,
  remove-Unique,
}
use grelmicro.Outbox
use grelmicro.Outbox.{
  OutboxRecord, RowState, pending, processing, delivered, dead, Row, Outbox, init, redrive_rows,
  doomed, Terminal, in_states, is_before, is_dead, on_topic, selected, leased,
}
use grelmicro.Outbox.Claiming.{IsKeyed, IsValid}
use grelmicro.Outbox.Leasing.{claim-IsValid, insert-IsKeyed, lookup-claim, Handed, Handed-selected}
use grelmicro.Outbox.Lifecycle.{
  IsDeduped, enqueue-IsDeduped, Shrinks-IsDeduped, claim-Shrinks, complete-Shrinks,
  reschedule-Shrinks, redrive-Shrinks, purge-Shrinks, lookup-redrive, redriven_lookup,
}

pub data Operation : Type 0 where
  enqueue : OutboxRecord → ℕ → Operation
  claim : List String → ℕ → ℕ → ℕ → Operation
  complete : ℕ → ℕ → Bool → ℕ → Operation
  reschedule : ℕ → ℕ → ℕ → String → Bool → ℕ → Operation
  redrive : Option String → ℕ → Operation
  purge : Option ℕ → Terminal → Operation

unfoldable pub apply : Operation → Outbox → Outbox
apply (enqueue message now) box = (Outbox.enqueue message now box).1
apply (claim topics limit lease now) box = (Outbox.claim topics limit lease now box).1
apply (complete id attempts keep now) box = Outbox.complete id attempts keep now box
apply (reschedule id attempts delay error is_dead now) box =
    Outbox.reschedule id attempts delay error is_dead now box
apply (redrive topic now) box = (Outbox.redrive topic now box).1
apply (purge cutoff states) box = (Outbox.purge cutoff states box).1

unfoldable pub run : List Operation → Outbox → Outbox
run [] box = box
run (op ∷ ops) box = run ops (apply op box)

keyed_at :
    (id : ℕ) (row : Row) (rows : Dict ℕ Row)
    → IsKeyed rows
    → lookup id rows ≡ some row
    → row.message.id ≡ id
unfolding lookup
keyed_at id row [] k e = cc
keyed_at id row ((j, r) ∷ rows) k e = elim (Bool-cases (nat_beq j id)) [
  | inl same ↦ ground (arith, nat_beq_iff j id)
  | inr other ↦ keyed_at id row rows k.1 (ground arith)
]

write-IsKeyed :
    (id : ℕ) (row : Row) (rows : Dict ℕ Row)
    → row.message.id ≡ id
    → IsKeyed rows
    → IsKeyed (insert id row rows)
write-IsKeyed id row rows e k = rw (← e) (insert-IsKeyed row rows k)

remove-IsKeyed : (id : ℕ) (rows : Dict ℕ Row) → IsKeyed rows → IsKeyed (remove id rows)
unfolding remove
remove-IsKeyed id [] k = tt
remove-IsKeyed id ((j, r) ∷ rows) k = ground (arith, remove-IsKeyed id rows k.1)

remove_all-IsKeyed :
    (ids : List ℕ) (rows : Dict ℕ Row)
    → Unique rows × IsKeyed rows
    → Unique (remove_all ids rows) × IsKeyed (remove_all ids rows)
unfolding remove_all
remove_all-IsKeyed [] rows h = h
remove_all-IsKeyed (id ∷ ids) rows h =
    remove_all-IsKeyed ids (remove id rows) (remove-Unique id rows h.0, remove-IsKeyed id rows h.1)

redrive_rows-valid :
    (topic : Option String) (now : ℕ) (rows : Dict ℕ Row)
    → Unique rows × IsKeyed rows
    → Unique (redrive_rows topic now rows).1 × IsKeyed (redrive_rows topic now rows).1
unfolding redrive_rows
redrive_rows-valid topic now [] h = h
redrive_rows-valid topic now ((id, row) ∷ rows) h =
    ground
      (arith, redrive_rows-valid topic now rows (h.0.1, h.1.1), redriven_lookup topic now id rows)

enqueue-IsValid :
    (message : OutboxRecord) (now : ℕ) (box : Outbox)
    → IsValid box
    → IsValid (Outbox.enqueue message now box).1
unfolding Outbox.enqueue
enqueue-IsValid message now box v = grind (arith, write-IsKeyed, insert-Unique, v.unique, v.keyed)

pub complete-IsValid :
    (id attempts : ℕ) (keep : Bool) (now : ℕ) (box : Outbox)
    → IsValid box
    → IsValid (Outbox.complete id attempts keep now box)
unfolding Outbox.complete
complete-IsValid id attempts keep now box v = grind (
  arith, keyed_at, write-IsKeyed, remove-IsKeyed, insert-Unique, remove-Unique, v.unique, v.keyed,
)

pub reschedule-IsValid :
    (id attempts delay : ℕ) (error : String) (is_dead : Bool) (now : ℕ) (box : Outbox)
    → IsValid box
    → IsValid (Outbox.reschedule id attempts delay error is_dead now box)
unfolding Outbox.reschedule
reschedule-IsValid id attempts delay error is_dead now box v =
    grind (arith, keyed_at, write-IsKeyed, insert-Unique, v.unique, v.keyed)

redrive-IsValid :
    (topic : Option String) (now : ℕ) (box : Outbox)
    → IsValid box
    → IsValid (Outbox.redrive topic now box).1
unfolding Outbox.redrive
redrive-IsValid topic now box v =
    let (u, k) = redrive_rows-valid topic now box.rows (v.unique, v.keyed) in
    record { unique = u; keyed = k }

pub purge-IsValid :
    (cutoff : Option ℕ) (states : Terminal) (box : Outbox)
    → IsValid box
    → IsValid (Outbox.purge cutoff states box).1
unfolding Outbox.purge
purge-IsValid cutoff states box v =
    let (u, k) = remove_all-IsKeyed (doomed states cutoff box.rows) box.rows (v.unique, v.keyed) in
    record { unique = u; keyed = k }

abbrev pub is_doomed : Terminal → Option ℕ → Option Row → Bool
is_doomed states cutoff none = false
is_doomed states cutoff (some row) = in_states states row.state && is_before cutoff row

-- Rows stand under their messages' ids, each id once, and no two rows share a deduplication key.
pub record IsSound (box : Outbox) : Type 0 where
  pub valid : IsValid box
  pub deduped : IsDeduped box.rows

pub apply-IsValid : (op : Operation) (box : Outbox) → IsValid box → IsValid (apply op box)
unfolding apply
apply-IsValid (enqueue message now) box v = enqueue-IsValid message now box v
apply-IsValid (claim topics limit lease now) box v = claim-IsValid topics limit lease now box v
apply-IsValid (complete id attempts keep now) box v = complete-IsValid id attempts keep now box v
apply-IsValid (reschedule id attempts delay error is_dead now) box v =
    reschedule-IsValid id attempts delay error is_dead now box v
apply-IsValid (redrive topic now) box v = redrive-IsValid topic now box v
apply-IsValid (purge cutoff states) box v = purge-IsValid cutoff states box v

apply-IsSound : (op : Operation) (box : Outbox) → IsSound box → IsSound (apply op box)
unfolding apply
apply-IsSound (enqueue message now) box s = record {
  valid = apply-IsValid (enqueue message now) box s.valid;
  deduped = enqueue-IsDeduped message now box s.deduped;
}
apply-IsSound (claim topics limit lease now) box s = record {
  valid = apply-IsValid (claim topics limit lease now) box s.valid;
  deduped =
      Shrinks-IsDeduped box.rows (Outbox.claim topics limit lease now box).1.rows
        (claim-Shrinks topics limit lease now box s.valid) s.deduped;
}
apply-IsSound (complete id attempts keep now) box s = record {
  valid = apply-IsValid (complete id attempts keep now) box s.valid;
  deduped =
      Shrinks-IsDeduped box.rows (Outbox.complete id attempts keep now box).rows
        (complete-Shrinks id attempts keep now box) s.deduped;
}
apply-IsSound (reschedule id attempts delay error is_dead now) box s = record {
  valid = apply-IsValid (reschedule id attempts delay error is_dead now) box s.valid;
  deduped =
      Shrinks-IsDeduped box.rows (Outbox.reschedule id attempts delay error is_dead now box).rows
        (reschedule-Shrinks id attempts delay error is_dead now box) s.deduped;
}
apply-IsSound (redrive topic now) box s = record {
  valid = apply-IsValid (redrive topic now) box s.valid;
  deduped =
      Shrinks-IsDeduped box.rows (Outbox.redrive topic now box).1.rows
        (redrive-Shrinks topic now box) s.deduped;
}
apply-IsSound (purge cutoff states) box s = record {
  valid = apply-IsValid (purge cutoff states) box s.valid;
  deduped =
      Shrinks-IsDeduped box.rows (Outbox.purge cutoff states box).1.rows
        (purge-Shrinks cutoff states box) s.deduped;
}

-- From a sound outbox, such as the empty one, every sequence of operations leaves a sound one:
-- a message stands under its id, each id once, and a deduplication key is stored at most once,
-- whatever the states of the rows.
pub run-IsSound : (ops : List Operation) (box : Outbox) → IsSound box → IsSound (run ops box)
unfolding run
run-IsSound [] box s = s
run-IsSound (op ∷ ops) box s = run-IsSound ops (apply op box) (apply-IsSound op box s)

doomed-eq-lookup :
    (states : Terminal) (cutoff : Option ℕ) (m : ℕ) (rows : Dict ℕ Row)
    → Unique rows
    → contains (doomed states cutoff rows) m ≡ is_doomed states cutoff (lookup m rows)
unfolding doomed contains lookup
doomed-eq-lookup states cutoff m [] u = refl
doomed-eq-lookup states cutoff m ((id, row) ∷ rows) u =
    ground (arith, doomed-eq-lookup states cutoff m rows u.1, nat_beq_iff id m)

-- `purge` removes exactly the rows in one of the given terminal states that are older than the
-- cutoff, by delivery or else by creation; every other row stays as it was.
pub lookup-purge :
    (cutoff : Option ℕ) (states : Terminal) (m : ℕ) (box : Outbox)
    → IsValid box
    → lookup m (Outbox.purge cutoff states box).1.rows
      ≡ (if is_doomed states cutoff (lookup m box.rows) then none else lookup m box.rows)
unfolding Outbox.purge
lookup-purge cutoff states m box v = ground (
  arith,
  lookup-remove_all (doomed states cutoff box.rows) m box.rows,
  doomed-eq-lookup states cutoff m box.rows v.unique,
)

-- `redrive` starts the attempts of a dead row again, so a fence that had closed opens: the worker
-- that claimed a message first, and whose lease ended long ago, completes the message after it was
-- dead-lettered, redriven and handed to another worker, under that worker's lease.
pub redrive_opens_fence :
    (topics : List String) (limit lease now later last m : ℕ) (row : Row) (box : Outbox)
    → IsValid box
    → lookup m box.rows ≡ some row
    → row.state ≡ dead
    → Handed m (Outbox.claim topics limit lease later (Outbox.redrive none now box).1).0
    → lookup m
        (Outbox.complete m 1 false last
          (Outbox.claim topics limit lease later (Outbox.redrive none now box).1).1).rows
      ≡ none
unfolding Outbox.complete
redrive_opens_fence topics limit lease now later last m row box v e d h =
    let again = (Outbox.redrive none now box).1 in
    ground (
      arith,
      lookup-redrive none now m box,
      lookup-claim topics limit lease later m again (redrive-IsValid none now box v),
      Handed-selected topics limit lease later m again h,
      lookup-remove m m (Outbox.claim topics limit lease later again).1.rows,
    )
