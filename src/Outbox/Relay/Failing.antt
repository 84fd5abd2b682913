-- ===== src/Outbox/Relay/Failing.antt =====
-- The end of a message whose handler fails each time, in outbox/_relay.py.
use grelmicro.Prelude.{
  ℕ, ◌+◌, ◌<◌, ◌≡◌, refl, ap, sym, ◌∙◌, true, false, Option, none, some, String, List, [], ◌∷◌, map,
  nat_beq, if◌then◌else◌, string_eq, nat_eq, contains, length, leb, arith, Bool-cases, inl, inr,
  nat_beq_iff,
}
use grelmicro.Dict.{Dict, lookup}
use grelmicro.Outbox
use grelmicro.Outbox.{OutboxRecord, Row, Outbox, pending, dead, selected, leased}
use grelmicro.Outbox.Claiming.{All, IsValid, row_ids, handed, claim-eq-handed}
use grelmicro.Outbox.Leasing.{
  IsStored, selected-IsStored, selected-IsDue, Handed, Handed-selected, lookup-claim, claim-IsValid,
}
use grelmicro.Outbox.Registry.{
  Registry, Message, Model, Built, built, get, build_message, topics, build_for, with_data,
  message_of,
}
use grelmicro.Outbox.Registry.Lookup.{contains-topics}
use grelmicro.Outbox.Relay.{
  OutboxConfig, Handled, returned, was_cancelled, cancels, retries, invalidates, raises,
  rescheduled, dead_lettered, is_poison, settle, deliver, settle_retry, settlement, backoff,
}
use grelmicro.Outbox.Relay.Settling.{settled_row, lookup-settle, settle-IsValid}

unfoldable pub find : ℕ → List OutboxRecord → Option OutboxRecord
find m [] = none
find m (d ∷ ds) = let rest = find m ds in if nat_beq d.id m then some d else rest

find-handed :
    (m : ℕ) (row : Row) (stored : Dict ℕ Row) (due : List Row)
    → All (IsStored stored) due
    → lookup m stored ≡ some row
    → contains (row_ids due) m ≡ true
    → (row.message.id ≡ m) × (find m (map handed due) ≡ some (handed row))
unfolding find contains
find-handed m row stored [] h e c = absurd (cc)
find-handed m row stored (r ∷ due) h e c = elim (Bool-cases (nat_beq r.message.id m)) [
  | inl same ↦
      let q : r.message.id ≡ m = ground (arith, nat_beq_iff r.message.id m) in
      let s : lookup m stored ≡ some r = ap (λ i. lookup i stored) (sym q) ∙ h.0 in
      let eq : r ≡ row = ground (arith, s, e) in rw (← eq) (q, ground (arith, same))
  | inr other ↦
      let (q, f) = find-handed m row stored due h.1 e (ground (arith, other, c)) in
      (q, ground (arith, other, f))
]

-- The handler asks for another attempt, or raises an Exception that is no ValidationError.
abbrev pub Fails : Handled → Type 0
Fails returned = ⊥
Fails was_cancelled = ⊥
Fails (cancels reason) = ⊥
Fails (invalidates error) = ⊥
Fails (retries delay) = Unit
Fails (raises error) = Unit

-- A claim of a relay, and the end of its delivery of the message.
pub record Round (F D : Type 0) : Type 0 where
  pub limit : ℕ
  pub claimed_at : ℕ
  pub run : F → Message D → Handled
  pub drawn : ℕ
  pub settled_at : ℕ

module _ {F D : Type 0} (config : OutboxConfig) (decode_payload : Model → String → Built D)
    (handlers : Registry F) (m : ℕ) where
  abbrev pub claimed : Round F D → Outbox → List OutboxRecord
  claimed r box = (Outbox.claim (topics handlers) r.limit config.lease_duration r.claimed_at box).0

  abbrev after_claim : Round F D → Outbox → Outbox
  after_claim r box =
      (Outbox.claim (topics handlers) r.limit config.lease_duration r.claimed_at box).1

  abbrev pub delivered_to : Round F D → Option OutboxRecord → Outbox → Outbox
  delivered_to r none box = box
  delivered_to r (some d) box =
      settle config d (deliver config decode_payload handlers r.run d r.drawn) r.settled_at box

  -- The message is claimed, with others or not, and delivered.
  unfoldable pub play : Round F D → Outbox → Outbox
  play r box =
      let (ds, box') =
        Outbox.claim (topics handlers) r.limit config.lease_duration r.claimed_at box in
      delivered_to r (find m ds) box'

  unfoldable pub plays : List (Round F D) → Outbox → Outbox
  unfolding play
  plays [] box = box
  plays (r ∷ rs) box = plays rs (play r box)

  -- Each round hands out the message, and its handler fails.
  abbrev pub AllFail : List (Round F D) → Outbox → Type 0
  AllFail [] box = Unit
  AllFail (r ∷ rs) box =
      (Handed m (claimed r box) × ((f : F) (message : Message D) → Fails (r.run f message)))
      × AllFail rs (play r box)

  settlement-Fails :
      (d : OutboxRecord) (h : Handled) (drawn : ℕ)
      → Fails h
      → (error : String) × (delay : Option ℕ) × (settlement config d h drawn
          ≡ settle_retry config d error delay drawn)
  settlement-Fails d (retries delay) drawn t = ("retry requested", delay, refl)
  settlement-Fails d (raises error) drawn t = (error, none, refl)
  settlement-Fails d returned drawn t = absurd t
  settlement-Fails d was_cancelled drawn t = absurd t
  settlement-Fails d (cancels reason) drawn t = absurd t
  settlement-Fails d (invalidates error) drawn t = absurd t

  settle_retry-row :
      (d : OutboxRecord) (error : String) (delay : Option ℕ) (drawn now : ℕ) (row : Row)
      → config.dead_letter ≡ true
      → (row' : Row) × ((settled_row config (settle_retry config d error delay drawn) now row
            ≡ some row')
          × ((row'.attempts ≡ row.attempts)
              × (row'.state ≡ (if leb config.max_attempts d.attempts then dead else pending))))
  unfolding settle_retry
  settle_retry-row d error delay drawn now row on =
      elim (Bool-cases (leb config.max_attempts d.attempts)) [
        | inl last ↦
            let q : settle_retry config d error delay drawn ≡ dead_lettered error =
              ground (arith, on, last) in
            (
              record row { last_error = some error; state = dead },
              (ap (λ s. settled_row config s now row) q, (refl, ground (arith, last))),
            )
        | inr early ↦
            let wait : ℕ = elim delay [
              | none ↦ backoff config d.attempts drawn
              | some seconds ↦ seconds
            ] in
            let q : settle_retry config d error delay drawn ≡ rescheduled wait error =
              ground (arith, early) in
            (
              record row { last_error = some error; state = pending; available_at = now + wait },
              (ap (λ s. settled_row config s now row) q, (refl, ground (arith, early))),
            )
      ]

  -- The row of a message that failed, from the row that the claim left.
  settled-Fails :
      (d : OutboxRecord) (error : String) (delay : Option ℕ) (drawn now : ℕ) (row : Row)
      (box : Outbox)
      → config.dead_letter ≡ true
      → d.id ≡ m
      → d.attempts ≡ row.attempts
      → lookup m box.rows ≡ some row
      → (row' : Row) × ((lookup m
              (settle config d (settle_retry config d error delay drawn) now box).rows
            ≡ some row')
          × ((row'.attempts ≡ row.attempts)
              × (row'.state ≡ (if leb config.max_attempts row'.attempts then dead else pending))))
  settled-Fails d error delay drawn now row box on id_eq attempts_eq e =
      let stored : lookup d.id box.rows ≡ some row = ap (λ i. lookup i box.rows) id_eq ∙ e in
      let settled =
        lookup-settle config d (settle_retry config d error delay drawn) now m row box stored in
      let (row', (became, (attempts, state))) = settle_retry-row d error delay drawn now row on in
      (
        row',
        (
          ground (
            arith,
            settled,
            became,
            id_eq,
            attempts_eq,
            nat_beq_iff d.id m,
            nat_beq_iff row.attempts d.attempts,
          ),
          (attempts, ground (arith, attempts, state, attempts_eq)),
        ),
      )

  delivered-IsValid :
      (r : Round F D) (d : Option OutboxRecord) (box : Outbox)
      → IsValid box
      → IsValid (delivered_to r d box)
  delivered-IsValid r none box v = v
  delivered-IsValid r (some d) box v =
      settle-IsValid config d (deliver config decode_payload handlers r.run d r.drawn) r.settled_at
        box v

  module _
      (decodes : (p : Model) (payload : String)
        → (d : D) × (decode_payload p payload ≡ built d)) where
    build-built :
        (d : OutboxRecord) (p : Option Model)
        → (message : Message D) × (build_for decode_payload d p ≡ built message)
    build-built d none = (message_of d none, refl)
    build-built d (some p) =
        let (x, e) = decodes p d.payload in (message_of d (some x), ap (with_data d) e)

    deliver-Fails :
        (r : Round F D) (d : OutboxRecord)
        → contains (topics handlers) d.topic ≡ true
        → is_poison config d ≡ false
        → ((f : F) (message : Message D) → Fails (r.run f message))
        → (error : String) × (delay : Option ℕ) × (deliver config decode_payload handlers r.run d
              r.drawn
            ≡ settle_retry config d error delay r.drawn)
    unfolding deliver get build_message
    deliver-Fails r d known fresh fails =
        let (entry, e) = contains-topics d.topic handlers known in
        let (message, b) = build-built d entry.payload_model in
        let (error, delay, q) =
          settlement-Fails d (r.run entry.fn message) r.drawn (fails entry.fn message) in
        let found : get d.topic handlers ≡ built entry = rw (e, get) refl in
        let message_built : build_message decode_payload d handlers ≡ built message =
          rw (e, build_message) b in
        (error, delay, rw (fresh, message_built, found) q)

    -- A round whose handler fails leaves the message pending, or dead at the last attempt.
    play-Fails :
        (r : Round F D) (row : Row) (box : Outbox)
        → IsValid box
        → config.dead_letter ≡ true
        → row.attempts < config.max_attempts
        → lookup m box.rows ≡ some row
        → Handed m (claimed r box)
        → ((f : F) (message : Message D) → Fails (r.run f message))
        → (row' : Row) × ((lookup m (play r box).rows ≡ some row')
            × ((row'.attempts ≡ row.attempts + 1)
                × (row'.state ≡ (if leb config.max_attempts row'.attempts then dead else pending))))
    unfolding play
    play-Fails r row box v on lt e h fails =
        let due = selected (topics handlers) r.limit r.claimed_at box.rows in
        let held =
          Handed-selected (topics handlers) r.limit config.lease_duration r.claimed_at m box h in
        let (row2, stored, (known, is_open, available)) =
          selected-IsDue (topics handlers) r.limit r.claimed_at m box v held in
        let (id_eq, found) =
          find-handed m row box.rows due
            (selected-IsStored (topics handlers) r.limit r.claimed_at box v) e held in
        let after =
          lookup-claim (topics handlers) r.limit config.lease_duration r.claimed_at m box v in
        let q =
          (claim-eq-handed (topics handlers) r.limit config.lease_duration r.claimed_at box).0 in
        let same : row2 ≡ row = ground (arith, stored, e) in
        let d = handed row in
        let topic_known : contains (topics handlers) d.topic ≡ true = rw same at known in
        let (error, delay, s) = deliver-Fails r d topic_known (ground (arith, lt)) fails in
        let row1 = leased r.claimed_at config.lease_duration row in
        let stored1 : lookup m (after_claim r box).rows ≡ some row1 =
          ground (arith, after, held, e) in
        let (row', (stored', (attempts', state'))) =
          settled-Fails d error delay r.drawn r.settled_at row1 (after_claim r box) on id_eq refl
            stored1 in
        (row', (rw (q, found, s) stored', (attempts', state')))

    play-IsValid : (r : Round F D) (box : Outbox) → IsValid box → IsValid (play r box)
    unfolding play
    play-IsValid r box v =
        delivered-IsValid r (find m (claimed r box)) (after_claim r box)
          (claim-IsValid (topics handlers) r.limit config.lease_duration r.claimed_at box v)

    -- Where dead letters are on and payloads decode, a message that each round hands out and whose
    -- handler asks for a retry or raises an Exception other than a ValidationError each time is dead
    -- once it has used its attempts.
    pub plays-Fails :
        (rs : List (Round F D)) (row : Row) (box : Outbox)
        → IsValid box
        → config.dead_letter ≡ true
        → lookup m box.rows ≡ some row
        → row.attempts < config.max_attempts
        → row.attempts + length rs ≡ config.max_attempts
        → AllFail rs box
        → (row' : Row) × ((lookup m (plays rs box).rows ≡ some row')
            × ((row'.state ≡ dead) × (row'.attempts ≡ config.max_attempts)))
    unfolding plays
    plays-Fails [] row box v on e lt enough f = absurd (omega (arith, lt, enough))
    plays-Fails (r ∷ []) row box v on e lt enough ((handed_out, fails), later) =
        let (row', (e', (attempts, state))) = play-Fails r row box v on lt e handed_out fails in
        (row', (e', (ground (arith, attempts, state, enough), omega (arith, attempts, enough))))
    plays-Fails (r ∷ next ∷ rs) row box v on e lt enough ((handed_out, fails), later) =
        let (row', (e', (attempts, state))) = play-Fails r row box v on lt e handed_out fails in
        plays-Fails (next ∷ rs) row' (play r box) (play-IsValid r box v) on e'
          (omega (arith, attempts, enough)) (omega (arith, attempts, enough)) later
