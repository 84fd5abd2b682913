-- ===== src/Cache/Ttl/Tests.antt =====
-- Runs of `TTLCache` over the in-memory backend, and its theorems at concrete inputs.
use grelmicro.Prelude.{
  ◌+◌, ◌≡◌, ◌≢◌, refl, ap, ◌∙◌, not, ◌&&◌, none, some, String, [], ◌∷◌, arith, ltb, if◌then◌else◌,
  string_eq, ◌==◌, contains,
}
use grelmicro.Dict.{Dict, lookup, insert, remove}
use grelmicro.Cache.Sets.{discard}
use grelmicro.Cache.Memory
use grelmicro.Cache.Memory.{untag, drop}
use grelmicro.Cache.Memory.Reads.{peek}
use grelmicro.Cache.Backend.{memory}
use grelmicro.Cache.Ttl.{TtlCache, value_key, make_room, write, set, set_many, room_for_all}
use grelmicro.Cache.Ttl.Order
use grelmicro.Cache.Ttl.Lru.{IsPlain}
use grelmicro.Cache.Ttl.Writes.{set-reads}
use text.Mathlib.TextLemmas.{append_cancel_left, append_assoc, length-append}
use Prim.Native.String.{count, ◌++◌ as append}

abbrev cache : TtlCache
cache = record { maxsize = 2; ttl = 60; hits = 0; misses = 0; evictions = 0; keys = "a" ∷ "b" ∷ [] }

abbrev store : Memory.Cache
store = record {
  entries = ("cache:a", ("1", 60)) ∷ ("cache:b", ("2", 60)) ∷ ("cache:d", ("4", 60)) ∷ [];
  tag_keys = [];
  key_tags = [];
}

abbrev cache' : TtlCache
cache' = record cache { evictions = 1; keys = "b" ∷ "c" ∷ [] }

abbrev store' : Memory.Cache
store' = record store {
  entries = ("cache:b", ("2", 60)) ∷ ("cache:d", ("4", 60)) ∷ ("cache:c", ("3", 70)) ∷ [];
}

cache-Distinct : Order.Distinct cache.keys
unfolding contains
cache-Distinct = (refl, (refl, tt))

-- A third key drops the least recently used of two.
set_third : set memory "c" "3" none [] none 10 11 cache store ≡ some (cache', store')
unfolding set write make_room Memory.set Memory.associate Memory.delete_many drop untag lookup
    insert remove discard contains
set_third = refl

no_suffix :
    (k suffix : String) → count suffix ≡ 3 → value_key "a" ≢ append (append "cache:" k) suffix
no_suffix k suffix three e =
    let f : "a" ≡ append k suffix =
      append_cancel_left "cache:" "a" (append k suffix) (e ∙ append_assoc "cache:" k suffix) in
    let g : 1 ≡ count k + count suffix = ap count f ∙ length-append k suffix in omega arith

a-IsPlain : IsPlain "a"
a-IsPlain k = (no_suffix k "\u{1f}st" refl, no_suffix k "\u{1f}xf" refl)

set-reads_example : peek (value_key "a") 20 store' ≡ (
    if ◌==◌ {K = String} "c" "a"
    then (if ltb 20 (10 + 60) then some "3" else none)
    else if contains {A = String} cache.keys "a" && not (contains {A = String} cache'.keys "a")
    then none
    else peek (value_key "a") 20 store)
set-reads_example =
    set-reads memory "c" "3" none [] none 10 11 cache cache' store store' (omega arith)
      cache-Distinct set_third "a" 20 a-IsPlain

abbrev small : TtlCache
small = record { maxsize = 1; ttl = 60; hits = 0; misses = 0; evictions = 0; keys = [] }

abbrev small' : TtlCache
small' = record small { evictions = 1; keys = "d" ∷ [] }

abbrev pair : Dict String String
pair = ("c", "3") ∷ ("d", "4") ∷ []

abbrev both : Memory.Cache
both = record {
  entries = ("cache:c", ("3", 70)) ∷ ("cache:d", ("4", 70)) ∷ [];
  tag_keys = [];
  key_tags = [];
}

set_both : set_many memory pair none [] 10 small Memory.init ≡ some (small', both)
unfolding set_many room_for_all make_room Memory.set_many Memory.set Memory.associate
    Memory.delete_many drop untag lookup insert remove discard contains
set_both = refl
