-- ===== src/Cache/Backend.antt =====
-- The protocol of cache/_protocol.py, as far as the caches over it rely on it, and cache/memory.py as
-- an implementation.
use grelmicro.Prelude.{
  ℕ, [], ◌∷◌, eq_iff, ◌+◌, ◌≤◌, ◌≡◌, refl, Bool, Option, none, some, String, List, arith, ltb,
  string_eq, ◌==◌, if◌then◌else◌, contains,
}
use grelmicro.Dict.{Dict, lookup, Unique}
use grelmicro.Cache.Memory
use grelmicro.Cache.Memory.Reads.{peek, get-eq-peek, peek-set}
use grelmicro.Cache.Memory.Deletes.{peek-delete_many}

-- What a key reads as once it was written, or was not, while its lifetime lasts or after it.
abbrev pub overlay : Option String → Bool → Option String → Option String
overlay none fresh old = old
overlay (some value) fresh old = if fresh then some value else none

pub peek-set_many :
    (items : Dict String String) (ttl now later : ℕ) (tags : List String) (j : String)
    (c : Memory.Cache)
    → Unique items
    → peek j later (Memory.set_many items ttl tags now c)
      ≡ overlay (lookup j items) (ltb later (now + ttl)) (peek j later c)
unfolding Memory.set_many lookup
peek-set_many [] ttl now later tags j c u = refl
peek-set_many ((key, value) ∷ items) ttl now later tags j c u = ground (
  arith,
  peek-set_many items ttl now later tags j (Memory.set key value ttl tags now c) u.1,
  peek-set key j value ttl now later tags c,
  eq_iff key j,
  u.0,
)

-- What can be read is given by `peek`, which leaves the store as it is.
pub record CacheBackend : Type 1 where
  pub State : Type 0
  pub get : String → ℕ → State → Option String × State
  pub set : String → String → ℕ → List String → ℕ → State → State
  pub get_many : List String → ℕ → State → Dict String String × State
  pub set_many : Dict String String → ℕ → List String → ℕ → State → State
  pub delete_many : List String → State → State
  pub delete_tags : List String → State → State
  pub clear : State → State
  pub peek : String → ℕ → State → Option String
  pub get-peek :
      (key j : String) (now later : ℕ) (s : State)
      → now ≤ later
      → ((get key now s).0 ≡ peek key now s) × (peek j later (get key now s).1 ≡ peek j later s)
  pub set-peek :
      (key j value : String) (ttl now later : ℕ) (tags : List String) (s : State)
      → peek j later (set key value ttl tags now s) ≡ (
          if key == j then (if ltb later (now + ttl) then some value else none) else peek j later s)
  pub set_many-peek :
      (items : Dict String String) (ttl now later : ℕ) (tags : List String) (j : String) (s : State)
      → Unique items
      → peek j later (set_many items ttl tags now s)
        ≡ overlay (lookup j items) (ltb later (now + ttl)) (peek j later s)
  pub delete_many-peek :
      (keys : List String) (j : String) (now : ℕ) (s : State)
      → peek j now (delete_many keys s) ≡ (if contains keys j then none else peek j now s)

abbrev pub memory : CacheBackend
memory = record {
  State = Memory.Cache;
  get = Memory.get;
  set = Memory.set;
  get_many = Memory.get_many;
  set_many = Memory.set_many;
  delete_many = Memory.delete_many;
  delete_tags = Memory.delete_tags;
  clear = Memory.clear;
  peek = peek;
  get-peek = get-eq-peek;
  set-peek = peek-set;
  set_many-peek = peek-set_many;
  delete_many-peek = peek-delete_many;
}
