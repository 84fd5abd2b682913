-- ===== src/Outbox/Relay/Attempts.antt =====
-- How often the relays of outbox/_relay.py handle a message.
use grelmicro.Prelude.{
  ℕ, suc, ◌+◌, ◌-◌, ◌≤◌, ◌≡◌, refl, ap, sym, ◌∙◌, min, Bool, true, false, Option, none, some,
  String, List, [], ◌∷◌, ◌++◌, map, nat_beq, if◌then◌else◌, string_eq, nat_eq, contains, length,
  keep, leb, ltb, arith, Bool-cases, Option-cases, inl, inr, nat_beq_iff,
}
use grelmicro.Dict.{Dict, lookup, lookup-insert, lookup-remove}
use grelmicro.Outbox
use grelmicro.Outbox.{OutboxRecord, Row, Outbox, Terminal, selected, leased}
use grelmicro.Outbox.Claiming.{All, IsValid, row_ids, handed, claim-eq-handed}
use grelmicro.Outbox.Leasing.{IsStored, selected-IsStored, lookup-claim, claim-IsValid}
use grelmicro.Outbox.Operations.{purge-IsValid, lookup-purge}
use grelmicro.Outbox.Registry.{Registry, Message, Model, Built}
use grelmicro.Outbox.Relay.{
  OutboxConfig, Handled, Settlement, left, completed, rescheduled, dead_lettered, is_kept, settle,
  deliver,
}
use grelmicro.Outbox.Relay.Pool.{
  Pool, begun, poll, of_relay, is_empty, Event, polls, finishes, crashes, purges, finish, step,
  steps, nth, without,
}
use grelmicro.Outbox.Relay.Settling.{settle-IsValid}
use grelmicro.Outbox.Relay.Distinct.{IsDistinct, selected-IsDistinct}

-- How often a list has a number.
unfoldable pub count : ℕ → List ℕ → ℕ
count m [] = 0
count m (x ∷ xs) = let rest = count m xs in if nat_beq x m then suc rest else rest

count-append : (m : ℕ) (xs ys : List ℕ) → count m (xs ++ ys) ≡ count m xs + count m ys
unfolding count
count-append m [] ys = omega arith
count-append m (x ∷ xs) ys = ground (arith, count-append m xs ys)

abbrev pub attempts_at : Option Row → Option ℕ
attempts_at none = none
attempts_at (some row) = some row.attempts

module _ (config : OutboxConfig) (keeps_count : config.dead_letter ≡ true) (m : ℕ) where
  -- How often a claim of a row starts its handler.
  abbrev starts : Option Row → ℕ
  starts none = 0
  starts (some row) = if ltb row.attempts config.max_attempts then 1 else 0

  begun_lacks :
      (due : List Row)
      → contains (row_ids due) m ≡ false
      → count m (begun config (map handed due)) ≡ 0
  unfolding count contains keep
  begun_lacks [] h = refl
  begun_lacks (row ∷ due) h = ground (arith, begun_lacks due, h)

  count-begun :
      (stored : Dict ℕ Row) (due : List Row)
      → All (IsStored stored) due
      → IsDistinct due
      → count m (begun config (map handed due))
        ≡ (if contains (row_ids due) m then starts (lookup m stored) else 0)
  unfolding count contains keep
  count-begun stored [] h d = refl
  count-begun stored (row ∷ due) h d = elim (Bool-cases (nat_beq row.message.id m)) [
    | inl same ↦
        let e : row.message.id ≡ m = ground (arith, nat_beq_iff row.message.id m) in
        let s : lookup m stored ≡ some row = ap (λ i. lookup i stored) (sym e) ∙ h.0 in
        let lacks : contains (row_ids due) m ≡ false = ap (contains (row_ids due)) (sym e) ∙ d.0 in
        ground (arith, s, begun_lacks due lacks, keeps_count, same)
    | inr other ↦ ground (arith, count-begun stored due h.1 d.1, other)
  ]

  -- The handlers called so far: within the limit, and no more than the attempts that the row counts.
  pub record IsCounted (p : Pool) : Type 0 where
    pub within : count m p.started ≤ config.max_attempts
    pub stored : (a : ℕ) → attempts_at (lookup m p.box.rows) ≡ some a → count m p.started ≤ a
    pub valid : IsValid p.box

  claim-IsCounted :
      (relay : String) (topics : List String) (limit now : ℕ) (p : Pool)
      (inflight : List (String × OutboxRecord))
      → IsCounted p
      → (let (claimed, box) = Outbox.claim topics limit config.lease_duration now p.box in
          IsCounted (record {
            box = box;
            inflight = inflight;
            started = begun config claimed ++ p.started;
          }))
  claim-IsCounted relay topics limit now p inflight c =
      let due = selected topics limit now p.box.rows in
      let q = (claim-eq-handed topics limit config.lease_duration now p.box).0 in
      let n =
        count-begun p.box.rows due (selected-IsStored topics limit now p.box c.valid)
          (selected-IsDistinct topics limit now p.box c.valid) in
      let after = lookup-claim topics limit config.lease_duration now m p.box c.valid in
      let sum = count-append m (begun config (map handed due)) p.started in
      rw q (elim (Option-cases (lookup m p.box.rows)) [
        | inl e ↦ record {
          within = ground (arith, n, sum, e, c.within);
          stored = λ a f. ground (arith, after, e, f);
          valid = claim-IsValid topics limit config.lease_duration now p.box c.valid;
        }
        | inr (r, e) ↦ record {
          within = ground (arith, n, sum, e, c.within, c.stored r.attempts (ground (arith, e)));
          stored =
              λ a f. ground (arith, n, sum, after, e, f, c.stored r.attempts (ground (arith, e)));
          valid = claim-IsValid topics limit config.lease_duration now p.box c.valid;
        }
      ])

  -- What an operation other than a claim leaves of the attempts that a row counts.
  abbrev KeepsAttempts : Dict ℕ Row → Dict ℕ Row → Type 0
  KeepsAttempts rows rows' =
      (a : ℕ) → attempts_at (lookup m rows') ≡ some a → attempts_at (lookup m rows) ≡ some a

  complete-KeepsAttempts :
      (id attempts : ℕ) (keep : Bool) (now : ℕ) (box : Outbox)
      → KeepsAttempts box.rows (Outbox.complete id attempts keep now box).rows
  unfolding Outbox.complete
  complete-KeepsAttempts id attempts keep now box a e =
      grind (arith, lookup-insert, lookup-remove, nat_beq_iff id m)

  reschedule-KeepsAttempts :
      (id attempts delay : ℕ) (error : String) (is_dead : Bool) (now : ℕ) (box : Outbox)
      → KeepsAttempts box.rows (Outbox.reschedule id attempts delay error is_dead now box).rows
  unfolding Outbox.reschedule
  reschedule-KeepsAttempts id attempts delay error is_dead now box a e =
      grind (arith, lookup-insert, nat_beq_iff id m)

  settle-KeepsAttempts :
      (d : OutboxRecord) (s : Settlement) (now : ℕ) (box : Outbox)
      → KeepsAttempts box.rows (settle config d s now box).rows
  unfolding settle
  settle-KeepsAttempts d left now box a e = e
  settle-KeepsAttempts d completed now box a e =
      complete-KeepsAttempts d.id d.attempts (is_kept config.keep_delivered) now box a e
  settle-KeepsAttempts d (rescheduled delay error) now box a e =
      reschedule-KeepsAttempts d.id d.attempts delay error false now box a e
  settle-KeepsAttempts d (dead_lettered error) now box a e =
      reschedule-KeepsAttempts d.id d.attempts 0 error true now box a e

  -- A change of the store that keeps the attempts of a row, or removes it.
  unchanged-IsCounted :
      (box : Outbox) (inflight : List (String × OutboxRecord)) (p : Pool)
      → IsCounted p
      → KeepsAttempts p.box.rows box.rows
      → IsValid box
      → IsCounted (record p { box = box; inflight = inflight })
  unchanged-IsCounted box inflight p c k v = record {
    within = c.within;
    stored = λ a e. c.stored a (k a e);
    valid = v;
  }

  poll-IsCounted :
      (relay : String) (topics : List String) (now : ℕ) (p : Pool)
      → IsCounted p
      → IsCounted (poll config relay topics now p)
  unfolding poll
  poll-IsCounted relay topics now p c = elim (Bool-cases (is_empty topics)) [
    | inl no_topic ↦ rw no_topic c
    | inr topic ↦ elim (Bool-cases (leb config.concurrency (length (of_relay relay p.inflight)))) [
      | inl full ↦ rw (topic, full) c
      | inr free ↦
          let limit =
            min config.batch_size (config.concurrency - length (of_relay relay p.inflight)) in
          let claimed = (Outbox.claim topics limit config.lease_duration now p.box).0 in
          rw (topic, free)
            (claim-IsCounted relay topics limit now p (p.inflight ++ map (λ d. (relay, d)) claimed)
              c)
    ]
  ]

  purge-IsCounted :
      (cutoff : ℕ) (states : Terminal) (p : Pool)
      → IsCounted p
      → IsCounted (record p { box = (Outbox.purge (some cutoff) states p.box).1 })
  purge-IsCounted cutoff states p c =
      unchanged-IsCounted (Outbox.purge (some cutoff) states p.box).1 p.inflight p c
        (λ a e. ground (arith, lookup-purge (some cutoff) states m p.box c.valid))
        (purge-IsValid (some cutoff) states p.box c.valid)

  module _ {F D : Type 0} (decode_payload : Model → String → Built D) (handlers : Registry F) where
    finish-IsCounted :
        (i : ℕ) (run : F → Message D → Handled) (drawn : ℕ) (saved : Bool) (now : ℕ) (p : Pool)
        (d : Option (String × OutboxRecord))
        → IsCounted p
        → IsCounted (finish config decode_payload handlers i run drawn saved now p d)
    finish-IsCounted i run drawn saved now p none c = c
    finish-IsCounted i run drawn false now p (some (relay, d)) c =
        unchanged-IsCounted p.box (without i p.inflight) p c (λ a e. e) c.valid
    finish-IsCounted i run drawn true now p (some (relay, d)) c =
        let s = deliver config decode_payload handlers run d drawn in
        unchanged-IsCounted (settle config d s now p.box) (without i p.inflight) p c
          (settle-KeepsAttempts d s now p.box) (settle-IsValid config d s now p.box c.valid)

    step-IsCounted :
        (e : Event F D) (p : Pool)
        → IsCounted p
        → IsCounted (step config decode_payload handlers e p)
    unfolding step
    step-IsCounted (polls relay topics now) p c = poll-IsCounted relay topics now p c
    step-IsCounted (finishes i run drawn saved now) p c =
        finish-IsCounted i run drawn saved now p (nth i p.inflight) c
    step-IsCounted (crashes relay) p c = record {
      within = c.within;
      stored = c.stored;
      valid = c.valid;
    }
    step-IsCounted (purges cutoff) p c =
        purge-IsCounted cutoff (record { with_delivered = true; with_dead = false }) p c

    steps-IsCounted :
        (es : List (Event F D)) (p : Pool)
        → IsCounted p
        → IsCounted (steps config decode_payload handlers es p)
    unfolding steps
    steps-IsCounted [] p c = c
    steps-IsCounted (e ∷ es) p c =
        steps-IsCounted es (step config decode_payload handlers e p) (step-IsCounted e p c)

-- With dead letters on, and no message redriven or stored anew, the handler of a message is called at
-- most `max_attempts` times, whatever any number of relays do: poll, finish in any way and save it or
-- not, or crash with messages in flight.
pub started-le-max_attempts :
    {F D : Type 0} (config : OutboxConfig) (decode_payload : Model → String → Built D)
    (handlers : Registry F) (m : ℕ) (es : List (Event F D)) (box : Outbox)
    → config.dead_letter ≡ true
    → IsValid box
    → count m
        (steps config decode_payload handlers es
          (record { box = box; inflight = []; started = [] })).started
      ≤ config.max_attempts
unfolding count
started-le-max_attempts config decode_payload handlers m es box on v =
    let p : Pool = record { box = box; inflight = []; started = [] } in
    let c : IsCounted config on m p = record {
      within = omega arith;
      stored = λ a e. omega arith;
      valid = v;
    } in
    (steps-IsCounted config on m decode_payload handlers es p c).within
