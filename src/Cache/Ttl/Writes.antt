-- ===== src/Cache/Ttl/Writes.antt =====
-- What a write to `TTLCache` of cache/ttl.py keeps, evicts and stores.
use grelmicro.Prelude.{
  ℕ, suc, le_refl, ◌+◌, ◌-◌, ◌≤◌, ◌<◌, ◌≡◌, refl, ap, sym, ◌∙◌, false, not, ◌&&◌, Option, none,
  some, String, List, [], ◌∷◌, ltb, arith, if◌then◌else◌, string_eq, ◌==◌, eq_iff, contains, length,
  map, Bool-cases, inl, inr,
}
use grelmicro.Dict.{Dict, lookup, Unique}
use grelmicro.Cache.Backend.{CacheBackend}
use grelmicro.Cache.Ttl.{
  TtlCache, value_key, promote, entry_ttl, make_room, room_for, write, set, set_many, room_for_all,
  items_of, get,
}
use grelmicro.Cache.Ttl.Order.{
  drop, Distinct, drop-Distinct, promote-Distinct, length-promote, contains-drop,
}
use grelmicro.Cache.Ttl.Lru.{IsPlain, value_key-inj, make_room-drop, write-peek}

module _ (b : CacheBackend) (key value : String) (ttl : Option ℕ) (tags : List String)
    (stale_ttl : Option ℕ) (now later : ℕ) (c c' : TtlCache) (s s' : b.State)
    (limited : 0 < c.maxsize) (distinct : Distinct c.keys)
    (stored : set b key value ttl tags stale_ttl now later c s ≡ some (c', s')) where
  -- How many keys a write drops.
  abbrev pub surplus : ℕ
  surplus = if contains c.keys key then 0 else suc (length c.keys) - c.maxsize

  set-write : write b key value (entry_ttl ttl c.ttl) tags stale_ttl now later c s ≡ (c', s')
  unfolding set
  set-write = ground (arith, stored)

  write-keys :
      (write b key value (entry_ttl ttl c.ttl) tags stale_ttl now later c s).0.keys
      ≡ promote key (drop surplus c.keys)
  unfolding write drop
  write-keys = ground (arith, limited, make_room-drop b c.maxsize c.keys c.evictions s limited)

  -- A write to a limited cache drops keys from the least recently used on, and none where its key is
  -- tracked already; its own key becomes the last. No key stands twice, and a write to a new key
  -- leaves no more keys than `maxsize`.
  pub set-keys :
      (c'.keys ≡ promote key (drop surplus c.keys))
      × (Distinct c'.keys
          × (length c'.keys ≤ (if contains c.keys key then length c.keys else c.maxsize)))
  unfolding drop
  set-keys =
      let e : c'.keys ≡ promote key (drop surplus c.keys) =
        ap (λ r. r.0.keys) (sym set-write) ∙ write-keys in
      (
        e,
        rw e (
          promote-Distinct key (drop surplus c.keys) (drop-Distinct surplus c.keys distinct),
          ground (
            arith,
            length-promote key c.keys distinct,
            length-promote key (drop (suc (length c.keys) - c.maxsize) c.keys)
                (drop-Distinct (suc (length c.keys) - c.maxsize) c.keys distinct),
            contains-drop (suc (length c.keys) - c.maxsize) c.keys key,
            make_room-drop b c.maxsize c.keys c.evictions s limited,
          ),
        ),
      )

  -- After a write to a limited cache, its key reads as the value until its lifetime is over; a key
  -- that the write dropped reads as absent, and any other key reads as before. The key that is read is
  -- plain: no key's stale copy or recompute timing is stored under the name of its value.
  pub set-reads :
      (k : String) (t : ℕ)
      → IsPlain k
      → b.peek (value_key k) t s' ≡ (
          if key == k
          then (if ltb t (now + entry_ttl ttl c.ttl) then some value else none)
          else if contains c.keys k && not (contains c'.keys k)
          then none
          else b.peek (value_key k) t s)
  set-reads k t p = rw set-write at (
      write-peek b key value (entry_ttl ttl c.ttl) tags stale_ttl now later c s limited distinct k t
        p)

-- A hit on a key that is stored and not tracked, such as one that outlived `delete_tags`, is
-- tracked although the cache is full: the tracked keys then number more than `maxsize`.
pub get_overflows :
    (b : CacheBackend) (key value : String) (now : ℕ) (c : TtlCache) (s : b.State)
    → Distinct c.keys
    → 0 < c.maxsize
    → length c.keys ≡ c.maxsize
    → contains c.keys key ≡ false
    → b.peek (value_key key) now s ≡ some value
    → length (get b key now c s).1.0.keys ≡ suc c.maxsize
unfolding get
get_overflows b key value now c s d pos full untracked hit_it = ground (
  arith,
  b.get-peek (value_key key) (value_key key) now now s le_refl,
  length-promote key c.keys d,
)

module _ (b : CacheBackend) where
  -- Room for a key and its promotion keep the cache within its limit.
  room_for-limit :
      (key : String) (c : TtlCache) (s : b.State)
      → 0 < c.maxsize
      → Distinct c.keys
      → length c.keys ≤ c.maxsize
      → (let c' = (room_for b key c s).0 in
          (c'.maxsize ≡ c.maxsize)
          × (Distinct (promote key c'.keys) × (length (promote key c'.keys) ≤ c.maxsize)))
  room_for-limit key c s pos d le = elim (Bool-cases (contains c.keys key)) [
    | inl t ↦
        rw (t, room_for)
          (refl, (promote-Distinct key c.keys d, ground (arith, t, length-promote key c.keys d)))
    | inr f ↦
        let n = suc (length c.keys) - c.maxsize in
        let (e, (_, lt)) = make_room-drop b c.maxsize c.keys c.evictions s pos in
        let d' : Distinct (make_room b c.maxsize c.keys c.evictions s).0 =
          rw e (drop-Distinct n c.keys d) in
        rw (f, room_for)
          (
            refl,
            (
              promote-Distinct key (make_room b c.maxsize c.keys c.evictions s).0 d',
              ground (
                arith,
                lt,
                length-promote key (make_room b c.maxsize c.keys c.evictions s).0 d',
                e,
                contains-drop n c.keys key f,
              ),
            ),
          )
  ]

  room_for_all-limit :
      (keys : List String) (c : TtlCache) (s : b.State)
      → 0 < c.maxsize
      → Distinct c.keys
      → length c.keys ≤ c.maxsize
      → length (room_for_all b keys c s).0.keys ≤ c.maxsize
  unfolding room_for_all
  room_for_all-limit [] c s pos d le = le
  room_for_all-limit (key ∷ keys) c s pos d le =
      let (c', s') = room_for b key c s in
      let (e, (d', le')) = room_for-limit key c s pos d le in
      ground (
        arith,
        room_for_all-limit keys (record c' { keys = promote key c'.keys }) s'
            (ground (arith, e, pos)) d' (ground (arith, e, le')),
        e,
      )

  lookup-items_of :
      (mapping : Dict String String) (key : String)
      → lookup (value_key key) (items_of b mapping) ≡ lookup key mapping
  unfolding lookup
  lookup-items_of [] key = refl
  lookup-items_of ((k, value) ∷ mapping) key = ground (
    arith,
    lookup-items_of mapping key,
    eq_iff (value_key k) (value_key key),
    value_key-inj k key,
    eq_iff k key,
  )

  items_of-Unique : (mapping : Dict String String) → Unique mapping → Unique (items_of b mapping)
  items_of-Unique [] u = tt
  items_of-Unique ((k, value) ∷ mapping) u =
      (lookup-items_of mapping k ∙ u.0, items_of-Unique mapping u.1)

  -- `set_many` on a limited cache stores its whole mapping, also where that is larger than `maxsize`:
  -- every value of it can be read, while at most `maxsize` keys are tracked.
  pub set_many_overflows :
      (mapping : Dict String String) (ttl : Option ℕ) (tags : List String) (now t : ℕ)
      (c c' : TtlCache) (s s' : b.State) (key value : String)
      → 0 < c.maxsize
      → Distinct c.keys
      → length c.keys ≤ c.maxsize
      → Unique mapping
      → set_many b mapping ttl tags now c s ≡ some (c', s')
      → lookup key mapping ≡ some value
      → t < now + entry_ttl ttl c.ttl
      → (b.peek (value_key key) t s' ≡ some value) × (length c'.keys ≤ c.maxsize)
  unfolding set_many lookup
  set_many_overflows [] ttl tags now t c c' s s' key value pos d le u stored found lt = ground arith
  set_many_overflows (item ∷ mapping) ttl tags now t c c' s s' key value pos d le u stored found
        lt =
      let keys = map (λ e. e.0) (item ∷ mapping) in
      let roomy = (room_for_all b keys c s).1 in
      ground (
        arith,
        stored,
        room_for_all-limit keys c s pos d le,
        b.set_many-peek (items_of b (item ∷ mapping)) (entry_ttl ttl c.ttl) now t tags
            (value_key key) roomy (items_of-Unique (item ∷ mapping) u),
        lookup-items_of (item ∷ mapping) key,
        found,
      )
