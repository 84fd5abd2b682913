-- ===== src/Outbox/Relay/Tests.antt =====
-- Runs of the relay and of the registry, and their theorems at concrete inputs.
use grelmicro.Prelude.{
  ℕ, ◌≤◌, ◌≡◌, ◌⊎◌, refl, true, false, none, some, String, List, [], ◌∷◌, ◌++◌, if◌then◌else◌,
  string_eq, nat_eq, ◌==◌, contains, length, take, keep, arith,
}
use grelmicro.Dict.{lookup, insert}
use grelmicro.Outbox
use grelmicro.Outbox.{
  OutboxRecord, Row, RowState, pending, processing, dead, Outbox, due_rows, sort, place, claim_rows,
}
use grelmicro.Outbox.Claiming.{IsValid}
use grelmicro.Outbox.Registry.{
  Model, on_topic, Message, Registry, Built, built, already_registered, register, topics, get,
}
use grelmicro.Outbox.Registry.Lookup.{register_lem}
use grelmicro.Outbox.Relay.{OutboxConfig, discards, Handled, raises, settle, deliver, backoff}
use grelmicro.Outbox.Relay.Pool.{
  Pool, of_relay, Event, polls, finishes, crashes, steps, nth, without,
}
use grelmicro.Outbox.Relay.Attempts.{count, started-le-max_attempts}
use grelmicro.Outbox.Relay.Slots.{inflight-le-concurrency}
use grelmicro.Outbox.Relay.Failing.{Round, AllFail, play, plays, find, plays-Fails}

abbrev config : OutboxConfig
config = record {
  batch_size = 10;
  concurrency = 2;
  lease_duration = 30;
  max_attempts = 2;
  dead_letter = true;
  retry_base = 1;
  retry_max = 300;
  retry_jitter = 0;
  keep_delivered = discards;
}

abbrev message : OutboxRecord
message = record {
  id = 7;
  topic = "mail";
  payload = "{}";
  key = none;
  headers = "{}";
  dedup_key = none;
  available_at = none;
  attempts = 0;
}

abbrev row : Row
row = record {
  message = message;
  state = pending;
  attempts = 0;
  available_at = 5;
  created_at = 5;
  last_error = none;
  delivered_at = none;
}

abbrev box : Outbox
box = record { rows = (7, row) ∷ []; wake = false }

box-IsValid : IsValid box
unfolding lookup
box-IsValid = record { unique = (refl, tt); keyed = (refl, tt) }

-- Handlers are numbers.
abbrev handlers : Registry ℕ
handlers = ("mail", record { topic = "mail"; fn = 1; payload_model = none }) ∷ []

abbrev decode_payload : Model → String → Built ℕ
decode_payload p payload = built 0

abbrev fails : ℕ → Message ℕ → Handled
fails fn m = raises "boom"

-- A relay crashes, and another one lets the handler fail at the last attempt.
abbrev events : List (Event ℕ ℕ)
events =
    polls "a" ("mail" ∷ []) 10
    ∷ crashes "a"
    ∷ polls "b" ("mail" ∷ []) 20
    ∷ polls "b" ("mail" ∷ []) 41
    ∷ finishes 0 fails 3 true 42
    ∷ []

abbrev pool : Pool
pool = record { box = box; inflight = []; started = [] }

events_started : (steps config decode_payload handlers events pool).started ≡ 7 ∷ 7 ∷ []
unfolding steps Outbox.claim claim_rows due_rows sort place take contains lookup insert nth without
    keep
events_started = refl

events_dead :
    lookup 7 (steps config decode_payload handlers events pool).box.rows
    ≡ some (record row { state = dead; attempts = 2; available_at = 71; last_error = some "boom" })
unfolding steps Outbox.claim claim_rows due_rows sort place take contains lookup insert nth without
    keep deliver settle Outbox.reschedule
events_dead = refl

started-le-max_attempts_example :
    count 7 (steps config decode_payload handlers events pool).started ≤ 2
started-le-max_attempts_example =
    started-le-max_attempts config decode_payload handlers 7 events box refl box-IsValid

inflight-le-concurrency_example :
    length (of_relay "b" (steps config decode_payload handlers events pool).inflight) ≤ 2
inflight-le-concurrency_example =
    inflight-le-concurrency config decode_payload handlers "b" events pool
      (unfold keep in omega arith)

abbrev rounds : List (Round ℕ ℕ)
rounds =
    record { limit = 2; claimed_at = 10; run = fails; drawn = 3; settled_at = 12 }
    ∷ record { limit = 2; claimed_at = 50; run = fails; drawn = 3; settled_at = 52 }
    ∷ []

rounds-AllFail : AllFail config decode_payload handlers 7 rounds box
unfolding play find backoff Outbox.claim claim_rows due_rows sort place take contains lookup insert
    deliver settle Outbox.reschedule
rounds-AllFail = ((refl, λ f m. tt), ((refl, λ f m. tt), tt))

plays-Fails_example :
    (row' : Row) × ((lookup 7 (plays config decode_payload handlers 7 rounds box).rows ≡ some row')
      × ((row'.state ≡ dead) × (row'.attempts ≡ 2)))
plays-Fails_example =
    plays-Fails config decode_payload handlers 7 (λ p payload. (0, refl)) rounds row box box-IsValid
      refl (unfold lookup in refl) (omega arith) (omega arith) rounds-AllFail

register_lem_example :
    ((contains (topics handlers) "mail" ≡ true)
      × (register (on_topic "mail") 2 none handlers ≡ already_registered))
    ⊎ ((handlers' : Registry ℕ) × ((register (on_topic "mail") 2 none handlers ≡ built handlers')
          × ((topics handlers' ≡ topics handlers ++ ("mail" ∷ []))
              × ((other : String)
                  → get other handlers' ≡ (
                      if "mail" == other
                      then built (record { topic = "mail"; fn = 2; payload_model = none })
                      else get other handlers)))))
register_lem_example = register_lem (on_topic "mail") 2 none handlers
