-- ===== src/Outbox/Relay/Pool.antt =====
-- The loop of outbox/_relay.py, for any number of relays over one store. The messages in flight are
-- held with the name of their relay, and a message is delivered in a single step at its end.
use grelmicro.Prelude.{
  ℕ, zero, suc, ◌-◌, min, Bool, true, false, not, Option, none, some, String, List, [], ◌∷◌, ◌++◌,
  map, leb, if◌then◌else◌, string_eq, ◌==◌, length, keep,
}
use grelmicro.Outbox
use grelmicro.Outbox.{OutboxRecord, Outbox, Terminal}
use grelmicro.Outbox.Registry.{Registry, Message, Model, Built}
use grelmicro.Outbox.Relay.{OutboxConfig, Handled, is_poison, deliver, settle}

-- `started` has the id of a message for each time that a relay has begun to handle it.
pub record Pool : Type 0 where
  pub box : Outbox
  pub inflight : List (String × OutboxRecord)
  pub started : List ℕ

abbrev pub of_relay : String → List (String × OutboxRecord) → List (String × OutboxRecord)
of_relay relay = keep (λ d. d.0 == relay)

-- The ids of the claimed messages whose handlers are called.
abbrev pub begun : OutboxConfig → List OutboxRecord → List ℕ
begun config claimed = map (λ m. m.id) (keep (λ m. not (is_poison config m)) claimed)

abbrev pub is_empty : List String → Bool
is_empty [] = true
is_empty (topic ∷ topics) = false

-- A round of `_run`, which claims and dispatches.
unfoldable pub poll : OutboxConfig → String → List String → ℕ → Pool → Pool
poll config relay topics now p =
    let inflight = length (of_relay relay p.inflight) in
    if is_empty topics
    then p
    else if leb config.concurrency inflight
    then p
    else (let (claimed, box) =
          Outbox.claim topics (min config.batch_size (config.concurrency - inflight))
            config.lease_duration now p.box in
        record {
          box = box;
          inflight = p.inflight ++ map (λ m. (relay, m)) claimed;
          started = begun config claimed ++ p.started;
        })

unfoldable pub nth : ℕ → List (String × OutboxRecord) → Option (String × OutboxRecord)
nth i [] = none
nth zero (d ∷ ds) = some d
nth (suc i) (d ∷ ds) = nth i ds

unfoldable pub without : ℕ → List (String × OutboxRecord) → List (String × OutboxRecord)
without i [] = []
without zero (d ∷ ds) = ds
without (suc i) (d ∷ ds) = d ∷ without i ds

-- What may happen: a relay polls; a delivery in flight ends, by how its handler does, and is saved or
-- not; a relay is gone, with all that it has in flight; the loop that purges removes delivered rows.
pub data Event (F D : Type 0) : Type 0 where
  polls : String → List String → ℕ → Event F D
  finishes : ℕ → (F → Message D → Handled) → ℕ → Bool → ℕ → Event F D
  crashes : String → Event F D
  purges : ℕ → Event F D

module _ {F D : Type 0} (config : OutboxConfig) (decode_payload : Model → String → Built D)
    (handlers : Registry F) where
  -- The end of a delivery: `_deliver` and `_on_done`.
  abbrev pub finish :
      ℕ → (F → Message D → Handled) → ℕ → Bool → ℕ → Pool → Option (String × OutboxRecord) → Pool
  finish i run drawn saved now p none = p
  finish i run drawn saved now p (some (relay, m)) = record p {
    box =
        if saved
        then settle config m (deliver config decode_payload handlers run m drawn) now p.box
        else p.box;
    inflight = without i p.inflight;
  }

  unfoldable pub step : Event F D → Pool → Pool
  unfolding poll
  step (polls relay topics now) p = poll config relay topics now p
  step (finishes i run drawn saved now) p = finish i run drawn saved now p (nth i p.inflight)
  step (crashes relay) p = record p { inflight = keep (λ d. not (d.0 == relay)) p.inflight }
  step (purges cutoff) p = record p {
    box =
        (Outbox.purge (some cutoff) (record { with_delivered = true; with_dead = false }) p.box).1;
  }

  unfoldable pub steps : List (Event F D) → Pool → Pool
  unfolding step
  steps [] p = p
  steps (e ∷ es) p = steps es (step e p)
