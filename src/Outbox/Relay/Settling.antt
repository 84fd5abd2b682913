-- ===== src/Outbox/Relay/Settling.antt =====
-- What the relay of outbox/_relay.py makes of a message, by how its handler ends.
use grelmicro.Prelude.{
  ℕ, ◌+◌, ◌≡◌, true, false, ◌&&◌, Option, none, some, nat_beq, if◌then◌else◌, string_eq, nat_eq,
  arith, nat_beq_iff,
}
use grelmicro.Dict.{lookup, lookup-insert, lookup-remove}
use grelmicro.Outbox.{OutboxRecord, Row, Outbox, pending, delivered, dead, complete, reschedule}
use grelmicro.Outbox.Claiming.{IsValid}
use grelmicro.Outbox.Operations.{complete-IsValid, reschedule-IsValid}
use grelmicro.Outbox.Relay.{
  OutboxConfig, Settlement, left, completed, rescheduled, dead_lettered, is_kept, settle,
}

module _ (config : OutboxConfig) where
  -- The row of a message, after it was settled by the relay that holds it.
  abbrev pub settled_row : Settlement → ℕ → Row → Option Row
  settled_row left now row = some row
  settled_row completed now row =
      if is_kept config.keep_delivered
      then some (record row { state = delivered; last_error = none; delivered_at = some now })
      else none
  settled_row (rescheduled delay error) now row =
      some (record row { last_error = some error; state = pending; available_at = now + delay })
  settled_row (dead_lettered error) now row =
      some (record row { last_error = some error; state = dead })

  -- A settlement changes the row of its message alone, and only where the row still counts the attempt
  -- of the claim.
  pub lookup-settle :
      (m : OutboxRecord) (s : Settlement) (now id : ℕ) (row : Row) (box : Outbox)
      → lookup m.id box.rows ≡ some row
      → lookup id (settle config m s now box).rows ≡ (
          if nat_beq m.id id && nat_beq row.attempts m.attempts
          then settled_row s now row
          else lookup id box.rows)
  unfolding settle complete reschedule
  lookup-settle m left now id row box e = ground (arith, e, nat_beq_iff m.id id)
  lookup-settle m completed now id row box e = ground (
    arith,
    e,
    nat_beq_iff m.id id,
    lookup-insert m.id id
        (record row { state = delivered; last_error = none; delivered_at = some now }) box.rows,
    lookup-remove m.id id box.rows,
  )
  lookup-settle m (rescheduled delay error) now id row box e = ground (
    arith,
    e,
    nat_beq_iff m.id id,
    lookup-insert m.id id
        (record row { last_error = some error; state = pending; available_at = now + delay })
        box.rows,
  )
  lookup-settle m (dead_lettered error) now id row box e = ground (
    arith,
    e,
    nat_beq_iff m.id id,
    lookup-insert m.id id (record row { last_error = some error; state = dead }) box.rows,
  )

  pub settle-IsValid :
      (m : OutboxRecord) (s : Settlement) (now : ℕ) (box : Outbox)
      → IsValid box
      → IsValid (settle config m s now box)
  unfolding settle
  settle-IsValid m left now box v = v
  settle-IsValid m completed now box v =
      complete-IsValid m.id m.attempts (is_kept config.keep_delivered) now box v
  settle-IsValid m (rescheduled delay error) now box v =
      reschedule-IsValid m.id m.attempts delay error false now box v
  settle-IsValid m (dead_lettered error) now box v =
      reschedule-IsValid m.id m.attempts 0 error true now box v
