-- ===== src/Cache/Ttl/Order.antt =====
-- The order of the keys of `TTLCache` of cache/ttl.py.
use grelmicro.Prelude.{
  ℕ, zero, suc, ◌+◌, ◌≡◌, refl, false, ◌||◌, String, List, [], ◌∷◌, ◌++◌, arith, if◌then◌else◌,
  string_eq, ◌==◌, eq_iff, contains, length, length-append,
}
use grelmicro.Cache.Sets.{discard, contains-discard}
use grelmicro.Cache.Ttl.{promote}

unfoldable pub drop : ℕ → List String → List String
drop zero keys = keys
drop (suc n) [] = []
drop (suc n) (key ∷ keys) = drop n keys

-- No key stands twice.
abbrev pub Distinct : List String → Type 0
Distinct [] = Unit
Distinct (key ∷ keys) = (contains keys key ≡ false) × Distinct keys

pub contains-snoc :
    (keys : List String) (key k : String)
    → contains (keys ++ (key ∷ [])) k ≡ (key == k || contains keys k)
unfolding contains
contains-snoc [] key k = ground arith
contains-snoc (x ∷ keys) key k = ground (arith, contains-snoc keys key k)

pub contains-promote :
    (key k : String) (keys : List String)
    → contains (promote key keys) k ≡ (key == k || contains keys k)
contains-promote key k keys =
    ground
      (arith, contains-snoc (discard key keys) key k, contains-discard key k keys, eq_iff key k)

pub length-discard :
    (key : String) (keys : List String)
    → Distinct keys
    → length (discard key keys) + (if contains keys key then 1 else 0) ≡ length keys
unfolding discard contains
length-discard key [] d = refl
length-discard key (k ∷ keys) d = ground (arith, length-discard key keys d.1, d.0, eq_iff k key)

pub discard-Distinct :
    (key : String) (keys : List String) → Distinct keys → Distinct (discard key keys)
unfolding discard
discard-Distinct key [] d = tt
discard-Distinct key (k ∷ keys) d =
    ground (arith, discard-Distinct key keys d.1, contains-discard key k keys, d.0)

pub drop-Distinct : (n : ℕ) (keys : List String) → Distinct keys → Distinct (drop n keys)
unfolding drop
drop-Distinct zero keys d = d
drop-Distinct (suc n) [] d = tt
drop-Distinct (suc n) (key ∷ keys) d = drop-Distinct n keys d.1

pub snoc-Distinct :
    (keys : List String) (key : String)
    → Distinct keys
    → contains keys key ≡ false
    → Distinct (keys ++ (key ∷ []))
unfolding contains
snoc-Distinct [] key d h = (refl, tt)
snoc-Distinct (k ∷ keys) key d h =
    ground
      (arith, snoc-Distinct keys key d.1, contains-snoc keys key k, eq_iff k key, eq_iff key k, d.0)

pub promote-Distinct :
    (key : String) (keys : List String) → Distinct keys → Distinct (promote key keys)
promote-Distinct key keys d =
    snoc-Distinct (discard key keys) key (discard-Distinct key keys d)
      (ground (arith, contains-discard key key keys, eq_iff key key))

pub length-promote :
    (key : String) (keys : List String)
    → Distinct keys
    → length (promote key keys) + (if contains keys key then 1 else 0) ≡ suc (length keys)
length-promote key keys d =
    omega (arith, length-append (discard key keys) (key ∷ []), length-discard key keys d)

pub contains-drop :
    (n : ℕ) (keys : List String) (key : String)
    → contains keys key ≡ false
    → contains (drop n keys) key ≡ false
unfolding drop contains
contains-drop zero keys key h = h
contains-drop (suc n) [] key h = refl
contains-drop (suc n) (k ∷ keys) key h = contains-drop n keys key (ground (arith, h))
