-- ===== src/Cache/Memory.antt =====
-- `MemoryCacheAdapter` of cache/memory.py. A value is its bytes as a text; the clock and the
-- lifetimes are microseconds. Each reading of the clock is an argument.
pub mod Tags
pub mod Reads
pub mod Deletes
pub mod Runs
mod Tests
use grelmicro.Prelude.{
  ℕ, ◌+◌, Bool, true, false, Option, none, some, String, List, [], ◌∷◌, leb, ◌==◌, if◌then◌else◌,
  string_eq, contains,
}
use grelmicro.Dict.{Dict, lookup, insert, remove}
use grelmicro.Cache.Sets.{add, discard, to_set, set_at}

pub record Cache : Type 0 where
  pub entries : Dict String (String × ℕ)
  pub tag_keys : Dict String (List String)
  pub key_tags : Dict String (List String)

abbrev pub init : Cache
init = record { entries = []; tag_keys = []; key_tags = [] }

-- The set that is left of a tag's, which is deleted when it is empty.
abbrev pub prune : String → List String → Dict String (List String) → Dict String (List String)
prune tag [] tag_keys = remove tag tag_keys
prune tag (k ∷ members) tag_keys = insert tag (k ∷ members) tag_keys

abbrev pub remove_from_tag : String → String → Dict String (List String) → Dict String (List String)
remove_from_tag key tag tag_keys = elim (lookup tag tag_keys) [
  | none ↦ tag_keys
  | some members ↦ prune tag (discard key members) tag_keys
]

unfoldable pub remove_from_tags :
    String → List String → Dict String (List String) → Dict String (List String)
remove_from_tags key [] tag_keys = tag_keys
remove_from_tags key (tag ∷ tags) tag_keys =
    remove_from_tags key tags (remove_from_tag key tag tag_keys)

-- `self._tag_keys.setdefault(tag, set()).add(key)`, for each tag
unfoldable pub add_to_tags :
    String → List String → Dict String (List String) → Dict String (List String)
add_to_tags key [] tag_keys = tag_keys
add_to_tags key (tag ∷ tags) tag_keys =
    add_to_tags key tags (insert tag (add key (set_at tag tag_keys)) tag_keys)

abbrev pub forget : String → Option (List String) → Cache → Cache
forget key none c = c
forget key (some tags) c = record c { tag_keys = remove_from_tags key tags c.tag_keys }

-- The membership part of `_drop`, and the start of `_associate`: `self._key_tags.pop(key, None)`.
unfoldable pub untag : String → Cache → Cache
untag key c = forget key (lookup key c.key_tags) (record c { key_tags = remove key c.key_tags })

unfoldable pub drop : String → Cache → Cache
unfolding untag
drop key c = untag key (record c { entries = remove key c.entries })

abbrev pub retag : String → List String → Cache → Cache
retag key [] c = c
retag key (tag ∷ tags) c =
    let new = to_set (tag ∷ tags) in
    record c { key_tags = insert key new c.key_tags; tag_keys = add_to_tags key new c.tag_keys }

unfoldable pub associate : String → List String → Cache → Cache
unfolding untag
associate key tags c = retag key tags (untag key c)

unfoldable pub get : String → ℕ → Cache → Option String × Cache
unfolding drop
get key now c = elim (lookup key c.entries) [
  | none ↦ (none, c)
  | some (value, expiry) ↦ if leb expiry now then (none, drop key c) else (some value, c)
]

unfoldable pub set : String → String → ℕ → List String → ℕ → Cache → Cache
unfolding associate
set key value ttl tags now c =
    associate key tags (record c { entries = insert key (value, now + ttl) c.entries })

abbrev pub collect : String → Option String → Dict String String → Dict String String
collect key none found = found
collect key (some value) found = insert key value found

-- The loop of `get_many`, with what it has found so far.
unfoldable pub get_many_from :
    List String → ℕ → Dict String String → Cache → Dict String String × Cache
get_many_from [] now found c = (found, c)
get_many_from (key ∷ keys) now found c =
    let (value, c') = get key now c in get_many_from keys now (collect key value found) c'

unfoldable pub get_many : List String → ℕ → Cache → Dict String String × Cache
unfolding get_many_from
get_many keys now c = get_many_from keys now [] c

unfoldable pub set_many : Dict String String → ℕ → List String → ℕ → Cache → Cache
set_many [] ttl tags now c = c
set_many ((key, value) ∷ items) ttl tags now c =
    set_many items ttl tags now (set key value ttl tags now c)

unfoldable pub delete : String → Cache → Cache
unfolding drop
delete key c = drop key c

unfoldable pub delete_many : List String → Cache → Cache
delete_many [] c = c
delete_many (key ∷ keys) c = delete_many keys (drop key c)

abbrev pub delete_tag : String → Cache → Cache
unfolding delete_many
delete_tag tag c = elim (lookup tag c.tag_keys) [
  | none ↦ c
  | some members ↦ let c' = delete_many members c in record c' { tag_keys = remove tag c'.tag_keys }
]

unfoldable pub delete_tags : List String → Cache → Cache
unfolding delete_many
delete_tags [] c = c
delete_tags (tag ∷ tags) c = delete_tags tags (delete_tag tag c)

unfoldable pub clear : Cache → Cache
clear c = init
