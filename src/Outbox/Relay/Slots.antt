-- ===== src/Outbox/Relay/Slots.antt =====
-- The messages that a relay of outbox/_relay.py has in flight, and its concurrency.
use grelmicro.Prelude.{
  ℕ, zero, suc, ◌+◌, ◌-◌, ◌≤◌, ◌≡◌, refl, ap, min, Bool, not, Option, none, some, String, List, [],
  ◌∷◌, ◌++◌, map, if◌then◌else◌, string_eq, ◌==◌, length, keep, leb, arith, Bool-cases, inl, inr,
  eq_iff,
}
use grelmicro.Outbox
use grelmicro.Outbox.{OutboxRecord, Row}
use grelmicro.Outbox.Claiming.{claim-eq-handed, handed}
use grelmicro.Outbox.Registry.{Registry, Message, Model, Built}
use grelmicro.Outbox.Relay.{OutboxConfig, Handled}
use grelmicro.Outbox.Relay.Pool.{
  Pool, poll, of_relay, is_empty, Event, polls, finishes, crashes, purges, finish, step, steps, nth,
  without,
}

abbrev Flight : Type 0
Flight = List (String × OutboxRecord)

length-of_relay-append :
    (r relay : String) (xs : Flight) (ms : List OutboxRecord)
    → length (of_relay r (xs ++ map (λ m. (relay, m)) ms))
      ≡ length (of_relay r xs) + (if relay == r then length ms else 0)
unfolding keep
length-of_relay-append r relay [] [] = ground arith
length-of_relay-append r relay [] (m ∷ ms) = ground (arith, length-of_relay-append r relay [] ms)
length-of_relay-append r relay (x ∷ xs) ms = ground (arith, length-of_relay-append r relay xs ms)

of_relay-without :
    (r : String) (i : ℕ) (xs : Flight) → length (of_relay r (without i xs)) ≤ length (of_relay r xs)
unfolding keep without
of_relay-without r i [] = omega arith
of_relay-without r zero (x ∷ xs) = ground arith
of_relay-without r (suc i) (x ∷ xs) = ground (arith, of_relay-without r i xs)

of_relay-keep :
    (r : String) (p : String × OutboxRecord → Bool) (xs : Flight)
    → length (of_relay r (keep p xs)) ≤ length (of_relay r xs)
unfolding keep
of_relay-keep r p [] = omega arith
of_relay-keep r p (x ∷ xs) = ground (arith, of_relay-keep r p xs)

length-handed : (rows : List Row) → length (map handed rows) ≡ length rows
length-handed [] = refl
length-handed (r ∷ rows) = ap suc (length-handed rows)

claimed-le-limit :
    (topics : List String) (limit lease now : ℕ) (box : Outbox.Outbox)
    → length (Outbox.claim topics limit lease now box).0 ≤ limit
claimed-le-limit topics limit lease now box =
    let (q, le, sorted, due) = claim-eq-handed topics limit lease now box in
    rw q (omega (arith, length-handed (Outbox.selected topics limit now box.rows), le))

module _ {F D : Type 0} (config : OutboxConfig) (decode_payload : Model → String → Built D)
    (handlers : Registry F) (r : String) where
  abbrev IsWithin : Pool → Type 0
  IsWithin p = length (of_relay r p.inflight) ≤ config.concurrency

  poll-IsWithin :
      (relay : String) (topics : List String) (now : ℕ) (p : Pool)
      → IsWithin p
      → IsWithin (poll config relay topics now p)
  unfolding poll
  poll-IsWithin relay topics now p h = elim (Bool-cases (is_empty topics)) [
    | inl no_topic ↦ rw no_topic h
    | inr topic ↦ elim (Bool-cases (leb config.concurrency (length (of_relay relay p.inflight)))) [
      | inl full ↦ rw (topic, full) h
      | inr free ↦
          let limit =
            min config.batch_size (config.concurrency - length (of_relay relay p.inflight)) in
          let claimed = (Outbox.claim topics limit config.lease_duration now p.box).0 in
          let le = claimed-le-limit topics limit config.lease_duration now p.box in
          let sum = length-of_relay-append r relay p.inflight claimed in
          rw (topic, free)
            (elim (Bool-cases (relay == r)) [
              | inl same ↦
                  let q : relay ≡ r = ground (arith, eq_iff relay r, same) in
                  let l : length (of_relay relay p.inflight) ≡ length (of_relay r p.inflight) =
                    ap (λ n. length (of_relay n p.inflight)) q in
                  ground (arith, le, sum, same, free, l, h)
              | inr other ↦ ground (arith, sum, other, h)
            ])
    ]
  ]

  finish-IsWithin :
      (i : ℕ) (run : F → Message D → Handled) (drawn : ℕ) (saved : Bool) (now : ℕ) (p : Pool)
      (d : Option (String × OutboxRecord))
      → IsWithin p
      → IsWithin (finish config decode_payload handlers i run drawn saved now p d)
  finish-IsWithin i run drawn saved now p none h = h
  finish-IsWithin i run drawn saved now p (some (relay, m)) h =
      omega (arith, of_relay-without r i p.inflight, h)

  step-IsWithin :
      (e : Event F D) (p : Pool) → IsWithin p → IsWithin (step config decode_payload handlers e p)
  unfolding step
  step-IsWithin (polls relay topics now) p h = poll-IsWithin relay topics now p h
  step-IsWithin (finishes i run drawn saved now) p h =
      finish-IsWithin i run drawn saved now p (nth i p.inflight) h
  step-IsWithin (crashes relay) p h =
      omega (arith, of_relay-keep r (λ d. not (d.0 == relay)) p.inflight, h)
  step-IsWithin (purges cutoff) p h = h

  -- Whatever happens, no relay has more messages in flight than its concurrency.
  pub inflight-le-concurrency :
      (es : List (Event F D)) (p : Pool)
      → length (of_relay r p.inflight) ≤ config.concurrency
      → length (of_relay r (steps config decode_payload handlers es p).inflight)
        ≤ config.concurrency
  unfolding steps
  inflight-le-concurrency [] p h = h
  inflight-le-concurrency (e ∷ es) p h =
      inflight-le-concurrency es (step config decode_payload handlers e p) (step-IsWithin e p h)
