-- ===== src/Cache/Memory/Reads.antt =====
-- What can be read from cache/memory.py after each operation.
use grelmicro.Prelude.{
  ℕ, le_refl, ◌+◌, ◌≤◌, ◌≡◌, refl, false, Option, none, some, String, List, [], ◌∷◌, arith,
  string_eq, ◌==◌, eq_iff, if◌then◌else◌, contains, Option-cases, inl, inr, leb, ltb,
}
use grelmicro.Dict.{Dict, lookup, insert, remove, lookup-insert, lookup-remove}
use grelmicro.Cache.Memory.{Cache, drop, get, set, get_many, get_many_from, collect}
use grelmicro.Cache.Memory.Tags.{tagged, InStep, untag-entries, untag-tagged, associate-entries}

-- What a stored entry shows at a time.
abbrev pub unexpired : ℕ → Option (String × ℕ) → Option String
unexpired now none = none
unexpired now (some (value, expiry)) = if leb expiry now then none else some value

unfoldable pub peek : String → ℕ → Cache → Option String
peek key now c = unexpired now (lookup key c.entries)

pub drop-entries :
    (key k : String) (c : Cache)
    → lookup k (drop key c).entries ≡ (if key == k then none else lookup k c.entries)
unfolding drop
drop-entries key k c = ground (
  arith,
  untag-entries key (record c { entries = remove key c.entries }) k k,
  lookup-remove key k c.entries,
)

pub drop-tagged :
    (key t k : String) (c : Cache)
    → InStep c
    → tagged t k (drop key c).tag_keys ≡ (if key == k then false else tagged t k c.tag_keys)
unfolding drop
drop-tagged key t k c s = untag-tagged key (record c { entries = remove key c.entries }) t k s.agree

-- `get` returns what is stored and not expired, and changes nothing that can be read from then on.
pub get-eq-peek :
    (key j : String) (now later : ℕ) (c : Cache)
    → now ≤ later
    → ((get key now c).0 ≡ peek key now c) × (peek j later (get key now c).1 ≡ peek j later c)
unfolding get peek
get-eq-peek key j now later c le = elim (Option-cases (lookup key c.entries)) [
  | inl e ↦ ground arith
  | inr ((value, expiry), e) ↦ ground (arith, drop-entries key j c, eq_iff key j)
]

-- A value that was set is read until its lifetime is over, and never after; every other key reads
-- as before, whatever tags the two share.
pub peek-set :
    (key j value : String) (ttl now later : ℕ) (tags : List String) (c : Cache)
    → peek j later (set key value ttl tags now c)
      ≡ (if key == j then (if ltb later (now + ttl) then some value else none) else peek j later c)
unfolding set peek
peek-set key j value ttl now later tags c =
    let d = record c { entries = insert key (value, now + ttl) c.entries } in
    ground
      (arith, associate-entries key tags d j j, lookup-insert key j (value, now + ttl) c.entries)

abbrev overlay : Option String → Option String → Option String
overlay none old = old
overlay (some v) old = some v

lookup-collect :
    (key j : String) (value : Option String) (found : Dict String String)
    → lookup j (collect key value found)
      ≡ (if key == j then overlay value (lookup j found) else lookup j found)
lookup-collect key j none found = ground arith
lookup-collect key j (some v) found = ground (arith, lookup-insert key j v found)

get_many_from-eq-peek :
    (keys : List String) (now : ℕ) (found : Dict String String) (c : Cache) (j : String)
    → lookup j (get_many_from keys now found c).0
      ≡ (if contains keys j then overlay (peek j now c) (lookup j found) else lookup j found)
unfolding get_many_from contains
get_many_from-eq-peek [] now found c j = refl
get_many_from-eq-peek (key ∷ keys) now found c j =
    let (value, c') = get key now c in
    ground (
      arith,
      get_many_from-eq-peek keys now (collect key value found) c' j,
      lookup-collect key j value found,
      get-eq-peek key j now now c le_refl,
      eq_iff key j,
    )

-- `get_many` finds exactly the requested keys that are stored and not expired.
pub get_many-eq-peek :
    (keys : List String) (now : ℕ) (c : Cache) (j : String)
    → lookup j (get_many keys now c).0 ≡ (if contains keys j then peek j now c else none)
unfolding get_many lookup
get_many-eq-peek keys now c j = ground (arith, get_many_from-eq-peek keys now [] c j)
