-- ===== src/Outbox/Excluding.antt =====
-- The message that a claim of outbox/memory.py has handed out, while other operations come in between.
use grelmicro.Prelude.{
  ℕ, ◌+◌, ◌<◌, ◌≡◌, ◌≢◌, ◌⊎◌, inl, inr, refl, Bool, false, Option, none, some, String, List, [],
  ◌∷◌, nat_beq, string_eq, nat_eq, contains, arith, Bool-cases, nat_beq_iff,
}
use grelmicro.Dict.{lookup, lookup-insert, lookup-remove, lookup-insert_self, lookup-remove_self}
use grelmicro.Outbox
use grelmicro.Outbox.{
  leased, OutboxRecord, RowState, processing, delivered, Row, Outbox, selected, is_dead, on_topic,
  in_states, is_before,
}
use grelmicro.Outbox.Claiming.{IsValid, IsDue, row_ids}
use grelmicro.Outbox.Leasing.{Handed, Handed-selected, lookup-claim, selected-IsDue, claim-IsValid}
use grelmicro.Outbox.Lifecycle.{lookup-redrive, redriven, redriven_row}
use grelmicro.Outbox.Operations.{
  Operation, enqueue, claim, complete, reschedule, redrive, purge, apply, run, apply-IsValid,
  lookup-purge, is_doomed,
}

-- The row of a message that was handed out with a count of attempts, under a lease: it is gone, kept as
-- delivered, or still leased.
abbrev pub Rests : ℕ → ℕ → Option Row → Type 0
Rests attempts end none = Unit
Rests attempts end (some row) =
    (row.attempts ≡ attempts)
    × ((row.state ≡ delivered) ⊎ ((row.state ≡ processing) × (row.available_at ≡ end)))

-- Any operation before the lease ends, except that the message is not enqueued again, and not
-- rescheduled with the count of attempts that it was handed out with.
abbrev pub Spares : ℕ → ℕ → ℕ → Operation → Type 0
Spares m attempts end (enqueue message now) = message.id ≢ m
Spares m attempts end (claim topics limit lease now) = now < end
Spares m attempts end (complete id n keep now) = Unit
Spares m attempts end (reschedule id n delay error is_dead now) = (id ≢ m) ⊎ (n ≢ attempts)
Spares m attempts end (redrive topic now) = Unit
Spares m attempts end (purge cutoff states) = Unit

abbrev pub AllSpare : ℕ → ℕ → ℕ → List Operation → Type 0
AllSpare m attempts end [] = Unit
AllSpare m attempts end (op ∷ ops) = Spares m attempts end op × AllSpare m attempts end ops

due-Rests :
    (attempts end now : ℕ) (topics : List String) (row : Row)
    → Rests attempts end (some row)
    → now < end
    → IsDue topics now row
    → ⊥
due-Rests attempts end now topics row (n, inl kept) early due = ground (arith, kept, due.1)
due-Rests attempts end now topics row (n, inr h) early due = ground (arith, h.1, early, due.2)

module _ (m id n now : ℕ) (box : Outbox) (other : nat_beq id m ≡ false) where
  lookup-complete_other :
      (keep : Bool) → lookup m (Outbox.complete id n keep now box).rows ≡ lookup m box.rows
  unfolding Outbox.complete
  lookup-complete_other keep = grind (arith, lookup-insert, lookup-remove, other)

  lookup-reschedule_other :
      (delay : ℕ) (error : String) (is_dead : Bool)
      → lookup m (Outbox.reschedule id n delay error is_dead now box).rows ≡ lookup m box.rows
  unfolding Outbox.reschedule
  lookup-reschedule_other delay error is_dead = grind (arith, lookup-insert, other)

-- A completion of the message itself.
complete_self-Rests :
    (m attempts end n : ℕ) (keep : Bool) (now : ℕ) (box : Outbox) (o : Option Row)
    → lookup m box.rows ≡ o
    → Rests attempts end o
    → Rests attempts end (lookup m (Outbox.complete m n keep now box).rows)
unfolding Outbox.complete
complete_self-Rests m attempts end n keep now box none e h =
    let q : lookup m (Outbox.complete m n keep now box).rows ≡ none = ground (arith, e) in rw q tt
complete_self-Rests m attempts end n keep now box (some row) e h =
    elim (Bool-cases (nat_beq row.attempts n)) [
      | inr stale ↦
          let q : lookup m (Outbox.complete m n keep now box).rows ≡ some row =
            ground (arith, e, stale) in
          rw q h
      | inl current ↦ elim (Bool-cases keep) [
        | inl k ↦
            let row' : Row = record row {
              state = delivered;
              last_error = none;
              delivered_at = some now;
            } in
            let q : lookup m (Outbox.complete m n keep now box).rows ≡ some row' =
              ground (arith, e, current, k, lookup-insert_self m row' box.rows) in
            rw q (h.0, inl refl)
        | inr k ↦
            let q : lookup m (Outbox.complete m n keep now box).rows ≡ none =
              ground (arith, e, current, k, lookup-remove_self m box.rows) in
            rw q tt
      ]
    ]

complete-Rests :
    (m attempts end id n : ℕ) (keep : Bool) (now : ℕ) (box : Outbox)
    → Rests attempts end (lookup m box.rows)
    → Rests attempts end (lookup m (Outbox.complete id n keep now box).rows)
complete-Rests m attempts end id n keep now box h = elim (Bool-cases (nat_beq id m)) [
  | inr other ↦ rw (lookup-complete_other m id n now box other keep) h
  | inl same ↦
      rw ((nat_beq_iff id m).0 same)
        (complete_self-Rests m attempts end n keep now box (lookup m box.rows) refl h)
]

-- A rescheduling with another count of attempts leaves the row.
reschedule-stale :
    (m attempts end n delay : ℕ) (error : String) (is_dead : Bool) (now : ℕ) (box : Outbox)
    (o : Option Row)
    → lookup m box.rows ≡ o
    → Rests attempts end o
    → n ≢ attempts
    → lookup m (Outbox.reschedule m n delay error is_dead now box).rows ≡ o
unfolding Outbox.reschedule
reschedule-stale m attempts end n delay error is_dead now box none e h ne = ground (arith, e)
reschedule-stale m attempts end n delay error is_dead now box (some row) e h ne =
    ground (arith, e, h.0, ne, nat_beq_iff row.attempts n)

reschedule-Rests :
    (m attempts end id n delay : ℕ) (error : String) (is_dead : Bool) (now : ℕ) (box : Outbox)
    → (id ≢ m) ⊎ (n ≢ attempts)
    → Rests attempts end (lookup m box.rows)
    → Rests attempts end (lookup m (Outbox.reschedule id n delay error is_dead now box).rows)
reschedule-Rests m attempts end id n delay error is_dead now box spared h =
    elim (Bool-cases (nat_beq id m)) [
      | inr other ↦ rw (lookup-reschedule_other m id n now box other delay error is_dead) h
      | inl same ↦
          let q = (nat_beq_iff id m).0 same in
          let ne : n ≢ attempts = elim spared [
            | inl elsewhere ↦ absurd (elsewhere q)
            | inr ne ↦ ne
          ] in
          rw
            (
              q,
              reschedule-stale m attempts end n delay error is_dead now box (lookup m box.rows) refl
                  h ne,
            )
            h
    ]

redriven-Rests :
    (attempts end : ℕ) (topic : Option String) (now : ℕ) (o : Option Row)
    → Rests attempts end o
    → Rests attempts end (redriven_row topic now o)
redriven-Rests attempts end topic now none h = tt
redriven-Rests attempts end topic now (some row) (n, inl kept) =
    let q : redriven topic now row ≡ row = ground (arith, kept) in rw q (n, inl kept)
redriven-Rests attempts end topic now (some row) (n, inr h) =
    let q : redriven topic now row ≡ row = ground (arith, h.0) in rw q (n, inr h)

lookup-enqueue_other :
    (m : ℕ) (message : OutboxRecord) (now : ℕ) (box : Outbox)
    → message.id ≢ m
    → lookup m (Outbox.enqueue message now box).1.rows ≡ lookup m box.rows
unfolding Outbox.enqueue
lookup-enqueue_other m message now box ne =
    grind (arith, lookup-insert, nat_beq_iff message.id m, ne)

module _ (m attempts end : ℕ) where
  -- A claim before the lease ends passes the row over.
  passed_over :
      (topics : List String) (limit now : ℕ) (box : Outbox)
      → IsValid box
      → Rests attempts end (lookup m box.rows)
      → now < end
      → contains (row_ids (selected topics limit now box.rows)) m ≡ false
  passed_over topics limit now box v h early =
      elim (Bool-cases (contains (row_ids (selected topics limit now box.rows)) m)) [
        | inr other ↦ other
        | inl held ↦
            let (row, stored, due) = selected-IsDue topics limit now m box v held in
            let rests : Rests attempts end (some row) = rw stored at h in
            absurd (due-Rests attempts end now topics row rests early due)
      ]

  apply-Rests :
      (op : Operation) (box : Outbox)
      → IsValid box
      → Spares m attempts end op
      → Rests attempts end (lookup m box.rows)
      → Rests attempts end (lookup m (apply op box).rows)
  unfolding apply
  apply-Rests (enqueue message now) box v other h =
      rw (lookup-enqueue_other m message now box other) h
  apply-Rests (claim topics limit lease now) box v early h =
      rw (lookup-claim topics limit lease now m box v, passed_over topics limit now box v h early) h
  apply-Rests (complete id n keep now) box v free h =
      complete-Rests m attempts end id n keep now box h
  apply-Rests (reschedule id n delay error is_dead now) box v other h =
      reschedule-Rests m attempts end id n delay error is_dead now box other h
  apply-Rests (redrive topic now) box v free h =
      rw (lookup-redrive topic now m box)
        (redriven-Rests attempts end topic now (lookup m box.rows) h)
  apply-Rests (purge cutoff states) box v free h =
      rw (lookup-purge cutoff states m box v)
        (elim (Bool-cases (is_doomed states cutoff (lookup m box.rows))) [
          | inl gone ↦ rw gone tt
          | inr stays ↦ rw stays h
        ])

  run-Rests :
      (ops : List Operation) (box : Outbox)
      → IsValid box
      → AllSpare m attempts end ops
      → Rests attempts end (lookup m box.rows)
      → IsValid (run ops box) × Rests attempts end (lookup m (run ops box).rows)
  unfolding run
  run-Rests [] box v spare h = (v, h)
  run-Rests (op ∷ ops) box v spare h =
      run-Rests ops (apply op box) (apply-IsValid op box v) spare.1 (apply-Rests op box v spare.0 h)

-- A message that a claim has handed out is not handed out again by a claim for any topics before the
-- lease ends, whatever operations come in between, among them claims before the lease ends; except
-- that the message is not enqueued again, and not rescheduled with the count of attempts that it was
-- handed out with.
pub run_excludes :
    (topics topics' : List String) (limit limit' lease lease' now now' m : ℕ) (row : Row)
    (ops : List Operation) (box : Outbox)
    → IsValid box
    → lookup m box.rows ≡ some row
    → Handed m (Outbox.claim topics limit lease now box).0
    → AllSpare m (row.attempts + 1) (now + lease) ops
    → now' < now + lease
    → ¬ Handed m
        (Outbox.claim topics' limit' lease' now'
          (run ops (Outbox.claim topics limit lease now box).1)).0
run_excludes topics topics' limit limit' lease lease' now now' m row ops box v e h spare early
      again =
    let box' = (Outbox.claim topics limit lease now box).1 in
    let held = Handed-selected topics limit lease now m box h in
    let after : lookup m box'.rows ≡ some (leased now lease row) =
      ground (arith, lookup-claim topics limit lease now m box v, held, e) in
    let (v', rests) =
      run-Rests m (row.attempts + 1) (now + lease) ops box'
        (claim-IsValid topics limit lease now box v) spare (rw after (refl, inr (refl, refl))) in
    let passed =
      passed_over m (row.attempts + 1) (now + lease) topics' limit' now' (run ops box') v' rests
        early in
    ground (arith, passed, Handed-selected topics' limit' lease' now' m (run ops box') again)
