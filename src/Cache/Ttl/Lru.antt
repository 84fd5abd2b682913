-- ===== src/Cache/Ttl/Lru.antt =====
-- What `TTLCache` of cache/ttl.py evicts for a new key, and what can be read afterwards.
use grelmicro.Prelude.{
  ℕ, suc, ◌+◌, ◌-◌, ◌<◌, ◌≡◌, ◌≢◌, refl, false, not, ◌&&◌, Option, none, some, String, List, [],
  ◌∷◌, leb, ltb, arith, if◌then◌else◌, string_eq, ◌==◌, eq_iff, contains, length, Bool-cases, inl,
  inr,
}
use grelmicro.Cache.Backend.{CacheBackend}
use grelmicro.Cache.Ttl.{
  TtlCache, value_key, stale_key, xfetch_key, evicted_keys, make_room, room_for, set_stale, write,
}
use text.Mathlib.TextLemmas.{append_cancel_left}
use grelmicro.Cache.Ttl.Order.{drop, Distinct, contains-promote}

pub value_key-inj : (a c : String) → value_key a ≡ value_key c → a ≡ c
value_key-inj a c e = append_cancel_left "cache:" a c e

-- A key whose value is stored under no other key's stale copy or recompute timing.
abbrev pub IsPlain : String → Type 0
IsPlain key = (k : String) → (value_key key ≢ stale_key k) × (value_key key ≢ xfetch_key k)

module _ (b : CacheBackend) where
  make_room-sub :
      (maxsize : ℕ) (keys : List String) (evictions : ℕ) (s : b.State) (key : String)
      → contains keys key ≡ false
      → contains (make_room b maxsize keys evictions s).0 key ≡ false
  unfolding make_room contains
  make_room-sub maxsize [] evictions s key h = refl
  make_room-sub maxsize (lru ∷ keys) evictions s key h =
      ground (
        arith,
        make_room-sub maxsize keys (evictions + 1) (b.delete_many (evicted_keys b lru) s) key,
      )

  -- Room is made for one key, unless there is room, by dropping keys from the least recently used on.
  pub make_room-drop :
      (maxsize : ℕ) (keys : List String) (evictions : ℕ) (s : b.State)
      → 0 < maxsize
      → (let (keys', (evictions', s')) = make_room b maxsize keys evictions s in
          (keys' ≡ drop (suc (length keys) - maxsize) keys)
          × ((evictions' ≡ evictions + (suc (length keys) - maxsize)) × (length keys' < maxsize)))
  unfolding make_room drop
  make_room-drop maxsize [] evictions s pos =
      let e : 1 - maxsize ≡ 0 = omega arith in rw e (refl, (omega arith, pos))
  make_room-drop maxsize (lru ∷ keys) evictions s pos =
      elim (Bool-cases (leb maxsize (suc (length keys)))) [
        | inl full ↦
            let e : suc (suc (length keys)) - maxsize ≡ suc (suc (length keys) - maxsize) =
              ground (arith, full) in
            rw (full, e)
              (ground (
                arith,
                make_room-drop maxsize keys (evictions + 1) (b.delete_many (evicted_keys b lru) s)
                    pos,
              ))
        | inr room ↦
            let e : suc (suc (length keys)) - maxsize ≡ 0 = ground (arith, room) in
            rw (room, e) (refl, (omega arith, ground (arith, room)))
      ]

  -- A key that is dropped reads as absent; any other, as before.
  pub make_room-peek :
      (maxsize : ℕ) (keys : List String) (evictions : ℕ) (s : b.State) (key : String) (now : ℕ)
      → Distinct keys
      → IsPlain key
      → (let (keys', (evictions', s')) = make_room b maxsize keys evictions s in
          b.peek (value_key key) now s' ≡ (
            if contains keys key && not (contains keys' key)
            then none
            else b.peek (value_key key) now s))
  unfolding make_room contains
  make_room-peek maxsize [] evictions s key now d p = refl
  make_room-peek maxsize (lru ∷ keys) evictions s key now d p = ground (
    arith,
    make_room-peek maxsize keys (evictions + 1) (b.delete_many (evicted_keys b lru) s) key now d.1
        p,
    make_room-sub maxsize keys (evictions + 1) (b.delete_many (evicted_keys b lru) s) key,
    b.delete_many-peek (evicted_keys b lru) (value_key key) now s,
    p lru,
    eq_iff (value_key lru) (value_key key),
    eq_iff (stale_key lru) (value_key key),
    eq_iff (xfetch_key lru) (value_key key),
    value_key-inj lru key,
    eq_iff lru key,
    d.0,
  )

  set_stale-peek :
      (key value : String) (ttl : ℕ) (tags : List String) (stale_ttl : Option ℕ) (now t : ℕ)
      (s : b.State) (k : String)
      → IsPlain k
      → b.peek (value_key k) t (set_stale b key value ttl tags stale_ttl now s)
        ≡ b.peek (value_key k) t s
  set_stale-peek key value ttl tags none now t s k p = refl
  set_stale-peek key value ttl tags (some stale_ttl) now t s k p = ground (
    arith,
    b.set-peek (stale_key key) (value_key k) value (ttl + stale_ttl) now t tags s,
    eq_iff (stale_key key) (value_key k),
    p key,
  )

  module _ (key value : String) (lifetime : ℕ) (tags : List String) (stale_ttl : Option ℕ)
      (now later : ℕ) (c : TtlCache) (s : b.State) (limited : 0 < c.maxsize)
      (distinct : Distinct c.keys) where
    pub write-peek :
        (k : String) (t : ℕ)
        → IsPlain k
        → (let (c', s') = write b key value lifetime tags stale_ttl now later c s in
            b.peek (value_key k) t s' ≡ (
              if key == k
              then (if ltb t (now + lifetime) then some value else none)
              else if contains c.keys k && not (contains c'.keys k)
              then none
              else b.peek (value_key k) t s))
    unfolding write
    write-peek k t p =
        let (c', s') = room_for b key c s in
        ground (
          arith,
          limited,
          set_stale-peek key value lifetime tags stale_ttl later t
              (b.set (value_key key) value lifetime tags now s') k p,
          b.set-peek (value_key key) (value_key k) value lifetime now t tags s',
          make_room-peek c.maxsize c.keys c.evictions s k t distinct p,
          contains-promote key k c.keys,
          contains-promote key k (make_room b c.maxsize c.keys c.evictions s).0,
          eq_iff (value_key key) (value_key k),
          value_key-inj key k,
          eq_iff key k,
        )
