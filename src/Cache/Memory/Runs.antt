-- ===== src/Cache/Memory/Runs.antt =====
-- Runs of cache/memory.py, and what its two maps of tags say after any run.
use grelmicro.Prelude.{
  ℕ, ◌≡◌, ◌≢◌, refl, true, none, String, List, [], ◌∷◌, arith, string_eq, contains, Option-cases,
  inl, inr, Bool-cases, leb,
}
use grelmicro.Dict.{Dict, lookup}
use grelmicro.Cache.Memory
use grelmicro.Cache.Memory.{Cache, init, get_many_from, collect, untag, drop}
use grelmicro.Cache.Memory.Tags.{tagged, InStep, contains_nil, drop-InStep, set-InStep}
use grelmicro.Cache.Memory.Deletes.{delete_many-InStep, delete_tags-InStep}

pub data Operation : Type 0 where
  get : String → ℕ → Operation
  set : String → String → ℕ → List String → ℕ → Operation
  get_many : List String → ℕ → Operation
  set_many : Dict String String → ℕ → List String → ℕ → Operation
  delete : String → Operation
  delete_many : List String → Operation
  delete_tags : List String → Operation
  clear : Operation

unfoldable pub apply : Operation → Cache → Cache
apply (get key now) c = (Memory.get key now c).1
apply (set key value ttl tags now) c = Memory.set key value ttl tags now c
apply (get_many keys now) c = (Memory.get_many keys now c).1
apply (set_many items ttl tags now) c = Memory.set_many items ttl tags now c
apply (delete key) c = Memory.delete key c
apply (delete_many keys) c = Memory.delete_many keys c
apply (delete_tags tags) c = Memory.delete_tags tags c
apply clear c = Memory.clear c

unfoldable pub run : List Operation → Cache → Cache
run [] c = c
run (op ∷ ops) c = run ops (apply op c)

get-InStep : (key : String) (now : ℕ) (c : Cache) → InStep c → InStep (Memory.get key now c).1
unfolding Memory.get
get-InStep key now c s = elim (Option-cases (lookup key c.entries)) [
  | inl e ↦ rw (e, Memory.get) s
  | inr ((value, expiry), e) ↦
      rw (e, Memory.get)
        (elim (Bool-cases (leb expiry now)) [ inl t ↦ rw t (drop-InStep key c s) | inr f ↦ rw f s ])
]

get_many_from-InStep :
    (keys : List String) (now : ℕ) (found : Dict String String) (c : Cache)
    → InStep c
    → InStep (get_many_from keys now found c).1
unfolding get_many_from
get_many_from-InStep [] now found c s = s
get_many_from-InStep (key ∷ keys) now found c s =
    let (value, c') = Memory.get key now c in
    get_many_from-InStep keys now (collect key value found) c' (get-InStep key now c s)

set_many-InStep :
    (items : Dict String String) (ttl : ℕ) (tags : List String) (now : ℕ) (c : Cache)
    → InStep c
    → InStep (Memory.set_many items ttl tags now c)
unfolding Memory.set_many
set_many-InStep [] ttl tags now c s = s
set_many-InStep ((key, value) ∷ items) ttl tags now c s =
    set_many-InStep items ttl tags now (Memory.set key value ttl tags now c)
      (set-InStep key value ttl tags now c s)

init-InStep : InStep init
unfolding lookup contains
init-InStep = record { agree = λ t k. refl; stored = λ k t h. contains_nil t }

apply-InStep : (op : Operation) (c : Cache) → InStep c → InStep (apply op c)
unfolding apply Memory.get_many Memory.delete Memory.clear
apply-InStep (get key now) c s = get-InStep key now c s
apply-InStep (set key value ttl tags now) c s = set-InStep key value ttl tags now c s
apply-InStep (get_many keys now) c s = get_many_from-InStep keys now [] c s
apply-InStep (set_many items ttl tags now) c s = set_many-InStep items ttl tags now c s
apply-InStep (delete key) c s = drop-InStep key c s
apply-InStep (delete_many keys) c s = delete_many-InStep keys c s
apply-InStep (delete_tags tags) c s = delete_tags-InStep tags c s
apply-InStep clear c s = init-InStep

-- Every operation keeps the two maps of tags in step, and no tag names a key that is not stored.
pub run-InStep : (ops : List Operation) (c : Cache) → InStep c → InStep (run ops c)
unfolding run
run-InStep [] c s = s
run-InStep (op ∷ ops) c s = run-InStep ops (apply op c) (apply-InStep op c s)

-- After any operations on a new cache, a key that a tag names is stored.
pub run-tagged :
    (ops : List Operation) (tag key : String)
    → tagged tag key (run ops init).tag_keys ≡ true
    → lookup key (run ops init).entries ≢ none
run-tagged ops tag key t e =
    let s = run-InStep ops init init-InStep in ground (arith, s.agree tag key, s.stored key tag e)
