-- ===== src/Outbox/Registry/Lookup.antt =====
-- What the registry of outbox/_registry.py holds.
use grelmicro.Prelude.{
  ◌≡◌, ◌⊎◌, refl, true, Option, none, some, String, [], ◌∷◌, ◌++◌, if◌then◌else◌, string_eq, ◌==◌,
  contains, arith, eq_iff, Option-cases, Bool-cases, inl, inr,
}
use grelmicro.Dict.{lookup, insert, lookup-insert}
use grelmicro.Outbox.Registry.{
  Target, resolve, model_of, HandlerEntry, Registry, built, already_registered, register, topics,
  get,
}

module _ {F : Type 0} where
  pub contains-topics :
      (topic : String) (handlers : Registry F)
      → contains (topics handlers) topic ≡ true
      → (entry : HandlerEntry F) × (lookup topic handlers ≡ some entry)
  unfolding contains lookup
  contains-topics topic [] h = absurd (cc)
  contains-topics topic ((t, entry) ∷ handlers) h = elim (Bool-cases (t == topic)) [
    | inl same ↦ (entry, ground (arith, same))
    | inr other ↦
        let (e, q) = contains-topics topic handlers (ground (arith, other, h)) in
        (e, ground (arith, q, other))
  ]

  topics-contain :
      (topic : String) (entry : HandlerEntry F) (handlers : Registry F)
      → lookup topic handlers ≡ some entry
      → contains (topics handlers) topic ≡ true
  unfolding contains lookup
  topics-contain topic entry [] h = ground arith
  topics-contain topic entry ((t, e) ∷ handlers) h =
      ground (arith, topics-contain topic entry handlers, h)

  topics-insert :
      (topic : String) (entry : HandlerEntry F) (handlers : Registry F)
      → lookup topic handlers ≡ none
      → topics (insert topic entry handlers) ≡ topics handlers ++ (topic ∷ [])
  unfolding lookup insert
  topics-insert topic entry [] h = refl
  topics-insert topic entry ((t, e) ∷ handlers) h =
      ground (arith, topics-insert topic entry handlers, eq_iff t topic)

  -- A topic that is taken is refused, and keeps its handler. Otherwise the topic is the last of the
  -- topics, has the handler, and the handlers of the other topics stay.
  pub register_lem :
      (target : Target) (fn : F) (topic : Option String) (handlers : Registry F)
      → (let resolved = resolve topic target in
          ((contains (topics handlers) resolved ≡ true)
            × (register target fn topic handlers ≡ already_registered))
          ⊎ ((handlers' : Registry F) × ((register target fn topic handlers ≡ built handlers')
                × ((topics handlers' ≡ topics handlers ++ (resolved ∷ []))
                    × ((other : String)
                        → get other handlers' ≡ (
                            if resolved == other
                            then built (record {
                              topic = resolved;
                              fn = fn;
                              payload_model = model_of target;
                            })
                            else get other handlers))))))
  unfolding register get
  register_lem target fn topic handlers =
      let resolved = resolve topic target in
      elim (Option-cases (lookup resolved handlers)) [
        | inr (entry, e) ↦ inl (topics-contain resolved entry handlers e, rw (e, register) refl)
        | inl e ↦
            let entry : HandlerEntry F = record {
              topic = resolved;
              fn = fn;
              payload_model = model_of target;
            } in
            inr (
              insert resolved entry handlers,
              (
                rw (e, register) refl,
                (
                  topics-insert resolved entry handlers e,
                  λ other. ground (arith, lookup-insert resolved other entry handlers),
                ),
              ),
            )
      ]
