-- ===== src/Cache/Memory/Deletes.antt =====
-- What the deletions of cache/memory.py remove, and the two maps of tags after them.
use grelmicro.Prelude.{
  ℕ, ◌≡◌, refl, Bool, false, ◌||◌, none, String, List, [], ◌∷◌, arith, string_eq, eq_iff,
  if◌then◌else◌, contains, Option-cases, inl, inr,
}
use grelmicro.Dict.{lookup, lookup-remove}
use grelmicro.Cache.Sets.{set_at}
use grelmicro.Cache.Memory.{Cache, drop, delete_many, delete_tag, delete_tags}
use grelmicro.Cache.Memory.Tags.{tagged, InStep, contains_nil, drop-InStep}
use grelmicro.Cache.Memory.Reads.{peek, drop-entries, drop-tagged}

module _ (k : String) where
  delete_many-entries :
      (keys : List String) (c : Cache)
      → lookup k (delete_many keys c).entries
        ≡ (if contains keys k then none else lookup k c.entries)
  unfolding delete_many contains
  delete_many-entries [] c = refl
  delete_many-entries (key ∷ keys) c =
      ground (arith, delete_many-entries keys (drop key c), drop-entries key k c)

  delete_many-tagged :
      (t : String) (keys : List String) (c : Cache)
      → InStep c
      → tagged t k (delete_many keys c).tag_keys
        ≡ (if contains keys k then false else tagged t k c.tag_keys)
  unfolding delete_many contains
  delete_many-tagged t [] c s = refl
  delete_many-tagged t (key ∷ keys) c s =
      ground (
        arith,
        delete_many-tagged t keys (drop key c) (drop-InStep key c s),
        drop-tagged key t k c s,
      )

pub peek-delete_many :
    (keys : List String) (k : String) (now : ℕ) (c : Cache)
    → peek k now (delete_many keys c) ≡ (if contains keys k then none else peek k now c)
unfolding peek
peek-delete_many keys k now c = ground (arith, delete_many-entries k keys c)

pub delete_many-InStep : (keys : List String) (c : Cache) → InStep c → InStep (delete_many keys c)
unfolding delete_many
delete_many-InStep [] c s = s
delete_many-InStep (key ∷ keys) c s = delete_many-InStep keys (drop key c) (drop-InStep key c s)

module _ (tag : String) (c : Cache) (s : InStep c) where
  delete_tag-entries :
      (k : String)
      → lookup k (delete_tag tag c).entries
        ≡ (if tagged tag k c.tag_keys then none else lookup k c.entries)
  unfolding delete_many
  delete_tag-entries k = elim (Option-cases (lookup tag c.tag_keys)) [
    | inl e ↦ rw (e, delete_tag) (ground (arith, contains_nil k))
    | inr (members, e) ↦ rw (e, delete_tag) (ground (arith, delete_many-entries k members c))
  ]

  delete_tag-tagged :
      (t k : String)
      → tagged t k (delete_tag tag c).tag_keys
        ≡ (if tagged tag k c.tag_keys then false else tagged t k c.tag_keys)
  unfolding delete_many
  delete_tag-tagged t k = elim (Option-cases (lookup tag c.tag_keys)) [
    | inl e ↦ rw (e, delete_tag) (ground (arith, contains_nil k))
    | inr (members, e) ↦
        rw (e, delete_tag)
          (ground (
            arith,
            delete_many-tagged k t members c s,
            lookup-remove tag t (delete_many members c).tag_keys,
            contains_nil k,
            eq_iff tag t,
          ))
  ]

  delete_tag-InStep : InStep (delete_tag tag c)
  unfolding delete_tag
  delete_tag-InStep = elim (Option-cases (lookup tag c.tag_keys)) [
    | inl e ↦ rw (e, delete_tag) s
    | inr (members, e) ↦
        let c' = delete_many members c in
        let s' = delete_many-InStep members c s in
        rw (e, delete_tag)
          (record {
            agree = λ t k. ground (
              arith,
              delete_many-tagged k t members c s,
              lookup-remove tag t c'.tag_keys,
              s'.agree t k,
              contains_nil k,
              eq_iff tag t,
            );
            stored = s'.stored;
          })
  ]

-- Some of the tags is a tag of the key.
pub has_tag : List String → String → Cache → Bool
has_tag [] k c = false
has_tag (tag ∷ tags) k c = contains (set_at k c.key_tags) tag || has_tag tags k c

has_tag-delete_tag :
    (tag : String) (tags : List String) (k : String) (c : Cache)
    → InStep c
    → has_tag tags k (delete_tag tag c)
      ≡ (if contains (set_at k c.key_tags) tag then false else has_tag tags k c)
unfolding has_tag
has_tag-delete_tag tag [] k c s = ground arith
has_tag-delete_tag tag (t ∷ tags) k c s = ground (
  arith,
  has_tag-delete_tag tag tags k c s,
  delete_tag-tagged tag c s t k,
  s.agree t k,
  s.agree tag k,
  (delete_tag-InStep tag c s).agree t k,
)

delete_tags-entries :
    (tags : List String) (k : String) (c : Cache)
    → InStep c
    → lookup k (delete_tags tags c).entries
      ≡ (if has_tag tags k c then none else lookup k c.entries)
unfolding delete_tags has_tag
delete_tags-entries [] k c s = refl
delete_tags-entries (tag ∷ tags) k c s = ground (
  arith,
  delete_tags-entries tags k (delete_tag tag c) (delete_tag-InStep tag c s),
  has_tag-delete_tag tag tags k c s,
  delete_tag-entries tag c s k,
  s.agree tag k,
)

-- Deleting by tags removes exactly the keys that carry one of the tags, and every other key reads as
-- before.
pub peek-delete_tags :
    (tags : List String) (k : String) (now : ℕ) (c : Cache)
    → InStep c
    → peek k now (delete_tags tags c) ≡ (if has_tag tags k c then none else peek k now c)
unfolding peek
peek-delete_tags tags k now c s = ground (arith, delete_tags-entries tags k c s)

pub delete_tags-InStep : (tags : List String) (c : Cache) → InStep c → InStep (delete_tags tags c)
unfolding delete_tags
delete_tags-InStep [] c s = s
delete_tags-InStep (tag ∷ tags) c s =
    delete_tags-InStep tags (delete_tag tag c) (delete_tag-InStep tag c s)
