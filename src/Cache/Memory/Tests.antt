-- ===== src/Cache/Memory/Tests.antt =====
-- Runs of the in-memory cache, and its theorems at concrete inputs.
use grelmicro.Prelude.{◌≡◌, ◌≢◌, refl, none, some, List, [], ◌∷◌, string_eq, contains}
use grelmicro.Dict.{lookup, insert, remove}
use grelmicro.Cache.Sets.{add, discard, to_set}
use grelmicro.Cache.Memory
use grelmicro.Cache.Memory.{
  Cache, init, untag, drop, associate, remove_from_tags, add_to_tags, get_many_from,
}
use grelmicro.Cache.Memory.Tags.{InStep}
use grelmicro.Cache.Memory.Runs.{Operation, set, run, apply, run-tagged}

abbrev two_keys : List Operation
two_keys = set "a" "1" 10 ("t" ∷ "u" ∷ []) 0 ∷ set "b" "2" 20 ("u" ∷ []) 5 ∷ []

abbrev cache : Cache
unfolding run apply Memory.set associate add_to_tags insert add to_set contains
cache = run two_keys init

init-InStep : InStep init
unfolding lookup contains
init-InStep = record { agree = λ t k. refl; stored = λ k t h. refl }

-- Deleting a tag removes its keys only.
tag_deleted :
    ((Memory.get "a" 6 (Memory.delete_tags ("t" ∷ []) cache)).0 ≡ none)
    × ((Memory.get "b" 6 (Memory.delete_tags ("t" ∷ []) cache)).0 ≡ some "2")
unfolding Memory.get Memory.delete_tags Memory.delete_many drop untag remove_from_tags run apply
    Memory.set associate add_to_tags insert lookup remove add discard to_set contains
tag_deleted = (refl, refl)

run-tagged_example : lookup "a" (run two_keys init).entries ≢ none
unfolding run apply Memory.set associate untag add_to_tags insert lookup remove add to_set contains
    remove_from_tags
run-tagged_example = run-tagged two_keys "u" "a" refl
