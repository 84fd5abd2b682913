-- ===== src/Outbox/Registry.antt =====
-- `OutboxRegistry` of outbox/_registry.py. A handler is a value, and a payload model is one with what
-- the registry reads of it.
pub mod Lookup
use grelmicro.Prelude.{
  ℕ, ◌+◌, Bool, true, false, Option, none, some, String, List, [], ◌∷◌, map, if◌then◌else◌,
  string_eq, ◌==◌,
}
use grelmicro.Dict.{Dict, lookup, insert}
use grelmicro.Outbox.{OutboxRecord}

-- A payload model: `__outbox_topic__`, where it is set, and the name of the class.
pub record Model : Type 0 where
  pub outbox_topic : Option String
  pub name : String

pub data Target : Type 0 where
  model : Model → Target
  on_topic : String → Target

abbrev pub name_or : Option String → String → String
name_or none name = name
name_or (some topic) name = topic

abbrev pub derive_topic : Target → String
derive_topic (on_topic topic) = topic
derive_topic (model m) = name_or m.outbox_topic m.name

abbrev pub model_of : Target → Option Model
model_of (model m) = some m
model_of (on_topic topic) = none

-- `topic or derive_topic(target)`: an empty topic counts as none.
abbrev pub resolve : Option String → Target → String
resolve none target = derive_topic target
resolve (some topic) target = if topic == "" then derive_topic target else topic

-- The message that a handler is given.
pub record Message (D : Type 0) : Type 0 where
  pub id : ℕ
  pub topic : String
  pub key : Option String
  pub data_of : Option D
  pub payload : String
  pub headers : String
  pub attempts : ℕ

pub record HandlerEntry (F : Type 0) : Type 0 where
  pub topic : String
  pub fn : F
  pub payload_model : Option Model

-- What a call of the registry may end in, beside its value: its errors, and a ValidationError with
-- its text.
pub data Built (A : Type 0) : Type 0 where
  built : A → Built A
  already_registered not_found : Built A
  invalid_payload : String → Built A

abbrev pub Registry : Type 0 → Type 0
Registry F = Dict String (HandlerEntry F)

module _ {F : Type 0} where
  unfoldable pub register : Target → F → Option String → Registry F → Built (Registry F)
  register target fn topic handlers =
      let resolved = resolve topic target in
      elim (lookup resolved handlers) [
        | some entry ↦ already_registered
        | none ↦ built (
            insert resolved (record { topic = resolved; fn = fn; payload_model = model_of target })
              handlers)
      ]

  abbrev pub topics : Registry F → List String
  topics = map (λ entry. entry.0)

  unfoldable pub get : String → Registry F → Built (HandlerEntry F)
  get topic handlers = elim (lookup topic handlers) [ none ↦ not_found | some entry ↦ built entry ]

module _ {D : Type 0} where
  abbrev pub message_of : OutboxRecord → Option D → Message D
  message_of m data_of = record {
    id = m.id;
    topic = m.topic;
    key = m.key;
    data_of = data_of;
    payload = m.payload;
    headers = m.headers;
    attempts = m.attempts;
  }

  abbrev pub with_data : OutboxRecord → Built D → Built (Message D)
  with_data m (built d) = built (message_of m (some d))
  with_data m already_registered = already_registered
  with_data m not_found = not_found
  with_data m (invalid_payload error) = invalid_payload error

  abbrev pub build_for :
      (Model → String → Built D) → OutboxRecord → Option Model → Built (Message D)
  build_for decode_payload m none = built (message_of m none)
  build_for decode_payload m (some payload_model) =
      with_data m (decode_payload payload_model m.payload)

module _ {F D : Type 0} where
  -- `decode_payload` is an argument.
  unfoldable pub build_message :
      (Model → String → Built D) → OutboxRecord → Registry F → Built (Message D)
  build_message decode_payload m handlers = elim (lookup m.topic handlers) [
    | none ↦ not_found
    | some entry ↦ build_for decode_payload m entry.payload_model
  ]
