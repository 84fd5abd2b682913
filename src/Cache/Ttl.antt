-- ===== src/Cache/Ttl.antt =====
-- `TTLCache` of cache/ttl.py without a serializer, over any cache backend: a value is its bytes. The
-- statistics are counted; metrics and `get_or_set` are not modelled. An operation is one step: that
-- other tasks run while it awaits its backend is not modelled.
pub mod Order
pub mod Lru
pub mod Writes
mod Tests
use grelmicro.Prelude.{
  ℕ, zero, ◌+◌, ◌-◌, Bool, true, false, not, ◌&&◌, ◌||◌, Option, none, some, String, List, [], ◌∷◌,
  ◌++◌, map, leb, ltb, if◌then◌else◌, string_eq, ◌==◌, contains, length,
}
use grelmicro.Dict.{Dict, lookup, insert}
use grelmicro.Cache.Sets.{discard}
use grelmicro.Cache.Backend.{CacheBackend}
use Prim.Native.String.{◌++◌ as append}

-- The keys of a value, of its stale copy and of its recompute timing.
abbrev pub value_key : String → String
value_key key = append "cache:" key

abbrev pub stale_key : String → String
stale_key key = append (value_key key) "\u{1f}st"

abbrev pub xfetch_key : String → String
xfetch_key key = append (value_key key) "\u{1f}xf"

-- `keys` is from the least to the most recently used.
pub record TtlCache : Type 0 where
  pub maxsize : ℕ
  pub ttl : ℕ
  pub hits : ℕ
  pub misses : ℕ
  pub evictions : ℕ
  pub keys : List String

-- `_promote`
abbrev pub promote : String → List String → List String
promote key keys = discard key keys ++ (key ∷ [])

-- `ttl is not None and ttl <= 0`
abbrev pub is_bad : Option ℕ → Bool
is_bad none = false
is_bad (some ttl) = leb ttl zero

-- `ttl if ttl is not None else self._ttl`
abbrev pub entry_ttl : Option ℕ → ℕ → ℕ
entry_ttl none default = default
entry_ttl (some ttl) default = ttl

module _ (b : CacheBackend) where
  -- The keys that `_evict` deletes.
  abbrev pub evicted_keys : String → List String
  evicted_keys key = value_key key ∷ stale_key key ∷ xfetch_key key ∷ []

  -- The loop `while len(self._keys) >= self._maxsize: await self._evict()`, with the evictions, for a
  -- `maxsize` that is not 0.
  unfoldable pub make_room : ℕ → List String → ℕ → b.State → List String × (ℕ × b.State)
  make_room maxsize [] evictions s = ([], (evictions, s))
  make_room maxsize (lru ∷ keys) evictions s =
      let rest = make_room maxsize keys (evictions + 1) (b.delete_many (evicted_keys lru) s) in
      if leb maxsize (length (lru ∷ keys)) then rest else (lru ∷ keys, (evictions, s))

  -- Room for a new key, and the key's promotion; what `set` and `set_many` do where `maxsize` is
  -- not 0.
  abbrev pub room_for : String → TtlCache → b.State → TtlCache × b.State
  room_for key c s =
      if contains c.keys key
      then (c, s)
      else (let (keys, (evictions, s')) = make_room c.maxsize c.keys c.evictions s in
          (record c { keys = keys; evictions = evictions }, s'))

  abbrev pub hit : String → TtlCache → TtlCache
  hit key c = record c {
    hits = c.hits + 1;
    keys = if ltb 0 c.maxsize then promote key c.keys else c.keys;
  }

  abbrev pub account : String → Option String → TtlCache → TtlCache
  account key none c = record c { misses = c.misses + 1 }
  account key (some raw) c = hit key c

  -- `get`, where the default is none.
  unfoldable pub get : String → ℕ → TtlCache → b.State → Option String × (TtlCache × b.State)
  get key now c s = let (raw, s') = b.get (value_key key) now s in (raw, (account key raw c, s'))

  -- `_read_stale`
  unfoldable pub read_stale : String → ℕ → b.State → Option String × b.State
  read_stale key now s = b.get (stale_key key) now s

  abbrev pub set_stale : String → String → ℕ → List String → Option ℕ → ℕ → b.State → b.State
  set_stale key value ttl tags none now s = s
  set_stale key value ttl tags (some stale_ttl) now s =
      b.set (stale_key key) value (ttl + stale_ttl) tags now s

  -- What `set` does once it has checked its arguments.
  unfoldable pub write :
      String → String → ℕ → List String → Option ℕ → ℕ → ℕ → TtlCache → b.State → TtlCache × b.State
  unfolding make_room
  write key value lifetime tags stale_ttl now later c s =
      let (c', s') = if ltb 0 c.maxsize then room_for key c s else (c, s) in
      (
        record c' { keys = if ltb 0 c.maxsize then promote key c'.keys else c'.keys },
        set_stale key value lifetime tags stale_ttl later
            (b.set (value_key key) value lifetime tags now s'),
      )

  -- `set`, by the clock at each of its writes; none where it raises ValueError.
  unfoldable pub set :
      String
      → String
      → Option ℕ
      → List String
      → Option ℕ
      → ℕ
      → ℕ
      → TtlCache
      → b.State
      → Option (TtlCache × b.State)
  unfolding write
  set key value ttl tags stale_ttl now later c s =
      if is_bad ttl || is_bad stale_ttl
      then none
      else some (write key value (entry_ttl ttl c.ttl) tags stale_ttl now later c s)

  -- The loop of `set_many` that makes room, where `maxsize` is not 0.
  unfoldable pub room_for_all : List String → TtlCache → b.State → TtlCache × b.State
  unfolding make_room
  room_for_all [] c s = (c, s)
  room_for_all (key ∷ keys) c s =
      let (c', s') = room_for key c s in
      room_for_all keys (record c' { keys = promote key c'.keys }) s'

  abbrev pub items_of : Dict String String → Dict String String
  items_of mapping = map (λ e. (value_key e.0, e.1)) mapping

  -- none where it raises ValueError.
  unfoldable pub set_many :
      Dict String String
      → Option ℕ
      → List String
      → ℕ
      → TtlCache
      → b.State
      → Option (TtlCache × b.State)
  unfolding room_for_all
  set_many [] ttl tags now c s = if is_bad ttl then none else some (c, s)
  set_many (item ∷ mapping) ttl tags now c s =
      let (c', s') =
        if ltb 0 c.maxsize then room_for_all (map (λ e. e.0) (item ∷ mapping)) c s else (c, s) in
      if is_bad ttl
      then none
      else some (c', b.set_many (items_of (item ∷ mapping)) (entry_ttl ttl c.ttl) tags now s')

  -- The loop of `get_many` over what the backend found.
  unfoldable pub collect :
      List String
      → Dict String String
      → Dict String String
      → TtlCache
      → Dict String String × TtlCache
  collect [] found result c = (result, c)
  collect (key ∷ keys) found result c = elim (lookup (value_key key) found) [
    | none ↦ collect keys found result (account key none c)
    | some raw ↦ collect keys found (insert key raw result) (account key (some raw) c)
  ]

  unfoldable pub get_many :
      List String → ℕ → TtlCache → b.State → Dict String String × (TtlCache × b.State)
  unfolding collect
  get_many [] now c s = ([], (c, s))
  get_many (key ∷ keys) now c s =
      let (found, s') = b.get_many (map value_key (key ∷ keys)) now s in
      let (result, c') = collect (key ∷ keys) found [] c in (result, (c', s'))

  unfoldable pub delete : String → TtlCache → b.State → TtlCache × b.State
  delete key c s =
      (record c { keys = discard key c.keys }, b.delete_many (value_key key ∷ stale_key key ∷ []) s)

  unfoldable pub discard_all : List String → List String → List String
  discard_all [] keys = keys
  discard_all (key ∷ gone) keys = discard_all gone (discard key keys)

  unfoldable pub delete_many : List String → TtlCache → b.State → TtlCache × b.State
  unfolding discard_all
  delete_many [] c s = (c, s)
  delete_many (key ∷ keys) c s = (
    record c { keys = discard_all (key ∷ keys) c.keys },
    b.delete_many (map value_key (key ∷ keys) ++ map stale_key (key ∷ keys)) s,
  )

  unfoldable pub delete_tags : List String → TtlCache → b.State → TtlCache × b.State
  delete_tags [] c s = (c, s)
  delete_tags (tag ∷ tags) c s = (record c { keys = [] }, b.delete_tags (tag ∷ tags) s)

  unfoldable pub clear : TtlCache → b.State → TtlCache × b.State
  clear c s = (record c { keys = [] }, b.clear s)
