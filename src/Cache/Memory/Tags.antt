-- ===== src/Cache/Memory/Tags.antt =====
-- The two maps of tags of cache/memory.py.
use grelmicro.Prelude.{
  ℕ, ◌≡◌, refl, Bool, false, ◌&&◌, ◌||◌, none, String, List, [], ◌∷◌, arith, string_eq, ◌==◌,
  eq_iff, if◌then◌else◌, contains, ◌+◌, ◌∙◌, Option-cases, inl, inr,
}
use grelmicro.Dict.{Dict, lookup, insert, remove, lookup-insert, lookup-remove}
use grelmicro.Cache.Sets.{
  add, discard, to_set, set_at, contains-add, contains-discard, contains-to_set,
}
use grelmicro.Cache.Memory.{
  Cache, prune, remove_from_tag, remove_from_tags, add_to_tags, forget, untag, drop, retag,
  associate, set,
}

-- `tag` is a tag of `key`, by the one map and by the other.
abbrev pub tagged : String → String → Dict String (List String) → Bool
tagged tag key tag_keys = contains (set_at tag tag_keys) key

pub contains_nil : (k : String) → contains [] k ≡ false
unfolding contains
contains_nil k = refl

prune-tagged :
    (tag t k : String) (members : List String) (tag_keys : Dict String (List String))
    → tagged t k (prune tag members tag_keys)
      ≡ (if tag == t then contains members k else tagged t k tag_keys)
prune-tagged tag t k [] tag_keys = ground (arith, lookup-remove tag t tag_keys)
prune-tagged tag t k (m ∷ members) tag_keys =
    ground (arith, lookup-insert tag t (m ∷ members) tag_keys)

remove_from_tag-tagged :
    (key tag t k : String) (tag_keys : Dict String (List String))
    → tagged t k (remove_from_tag key tag tag_keys)
      ≡ (if key == k && (tag == t) then false else tagged t k tag_keys)
remove_from_tag-tagged key tag t k tag_keys = elim (Option-cases (lookup tag tag_keys)) [
  | inl e ↦ ground (arith, eq_iff tag t, contains_nil k)
  | inr (members, e) ↦
      rw (e, remove_from_tag)
        (prune-tagged tag t k (discard key members) tag_keys
          ∙ ground (arith, contains-discard key k members, eq_iff tag t))
]

remove_from_tags-tagged :
    (key t k : String) (tags : List String) (tag_keys : Dict String (List String))
    → tagged t k (remove_from_tags key tags tag_keys)
      ≡ (if key == k && contains tags t then false else tagged t k tag_keys)
unfolding remove_from_tags contains
remove_from_tags-tagged key t k [] tag_keys = ground arith
remove_from_tags-tagged key t k (tag ∷ tags) tag_keys = ground (
  arith,
  remove_from_tags-tagged key t k tags (remove_from_tag key tag tag_keys),
  remove_from_tag-tagged key tag t k tag_keys,
)

add_to_tags-tagged :
    (key t k : String) (tags : List String) (tag_keys : Dict String (List String))
    → tagged t k (add_to_tags key tags tag_keys)
      ≡ ((key == k && contains tags t) || tagged t k tag_keys)
unfolding add_to_tags contains
add_to_tags-tagged key t k [] tag_keys = ground arith
add_to_tags-tagged key t k (tag ∷ tags) tag_keys =
    let members = add key (set_at tag tag_keys) in
    ground (
      arith,
      add_to_tags-tagged key t k tags (insert tag members tag_keys),
      lookup-insert tag t members tag_keys,
      contains-add key k (set_at tag tag_keys),
      eq_iff tag t,
    )

-- The maps say the same of every tag and key, and only keys that are stored have tags.
pub record InStep (c : Cache) : Type 0 where
  pub agree : (t k : String) → tagged t k c.tag_keys ≡ contains (set_at k c.key_tags) t
  pub stored : (k t : String) → lookup k c.entries ≡ none → contains (set_at k c.key_tags) t ≡ false

abbrev pub Agree : Cache → Type 0
Agree c = (t k : String) → tagged t k c.tag_keys ≡ contains (set_at k c.key_tags) t

module _ (key : String) (c : Cache) (t k : String) where
  pub untag-tags :
      contains (set_at k (untag key c).key_tags) t
      ≡ (if key == k then false else contains (set_at k c.key_tags) t)
  unfolding untag
  untag-tags =
      ground (
        arith,
        lookup-remove key k c.key_tags,
        contains_nil t,
        Option-cases (lookup key c.key_tags),
      )

  pub untag-tagged :
      Agree c
      → tagged t k (untag key c).tag_keys ≡ (if key == k then false else tagged t k c.tag_keys)
  unfolding untag
  untag-tagged a = elim (Option-cases (lookup key c.key_tags)) [
    | inl e ↦ rw (e, forget) (ground (arith, a t k, eq_iff key k, contains_nil t))
    | inr (tags, e) ↦
        rw (e, forget)
          (ground (arith, remove_from_tags-tagged key t k tags c.tag_keys, a t key, eq_iff key k))
  ]

  pub untag-entries : lookup k (untag key c).entries ≡ lookup k c.entries
  unfolding untag
  untag-entries = ground (arith, Option-cases (lookup key c.key_tags))

module _ (key : String) (d : Cache) (t k : String) where
  retag-tags :
      (tags : List String)
      → contains (set_at key d.key_tags) t ≡ false
      → contains (set_at k (retag key tags d).key_tags) t
        ≡ (if key == k then contains tags t else contains (set_at k d.key_tags) t)
  retag-tags [] h = ground (arith, eq_iff key k, contains_nil t)
  retag-tags (tag ∷ tags) h =
      ground (
        arith,
        lookup-insert key k (to_set (tag ∷ tags)) d.key_tags,
        contains-to_set (tag ∷ tags) t,
      )

  retag-tagged :
      (tags : List String)
      → tagged t key d.tag_keys ≡ false
      → tagged t k (retag key tags d).tag_keys
        ≡ (if key == k then contains tags t else tagged t k d.tag_keys)
  retag-tagged [] h = ground (arith, eq_iff key k, contains_nil t)
  retag-tagged (tag ∷ tags) h = ground (
    arith,
    add_to_tags-tagged key t k (to_set (tag ∷ tags)) d.tag_keys,
    contains-to_set (tag ∷ tags) t,
    eq_iff key k,
  )

  retag-entries : (tags : List String) → (retag key tags d).entries ≡ d.entries
  retag-entries [] = refl
  retag-entries (tag ∷ tags) = refl

module _ (key : String) (tags : List String) (c : Cache) (t k : String) where
  associate-tags :
      contains (set_at k (associate key tags c).key_tags) t
      ≡ (if key == k then contains tags t else contains (set_at k c.key_tags) t)
  unfolding associate
  associate-tags = ground (
    arith,
    retag-tags key (untag key c) t k tags,
    untag-tags key c t k,
    untag-tags key c t key,
    eq_iff key key,
  )

  associate-tagged :
      Agree c
      → tagged t k (associate key tags c).tag_keys
        ≡ (if key == k then contains tags t else tagged t k c.tag_keys)
  unfolding associate
  associate-tagged a = ground (
    arith,
    retag-tagged key (untag key c) t k tags,
    untag-tagged key c t k a,
    untag-tagged key c t key a,
    eq_iff key key,
  )

  pub associate-entries : lookup k (associate key tags c).entries ≡ lookup k c.entries
  unfolding associate
  associate-entries =
      ground (arith, retag-entries key (untag key c) k k tags, untag-entries key c k k)

pub drop-InStep : (key : String) (c : Cache) → InStep c → InStep (drop key c)
unfolding drop
drop-InStep key c s =
    let d = record c { entries = remove key c.entries } in
    record {
      agree =
          λ t k. ground (arith, untag-tags key d t k, untag-tagged key d t k s.agree, s.agree t k);
      stored = λ k t h. ground (
        arith,
        untag-tags key d t k,
        untag-entries key d t k,
        lookup-remove key k c.entries,
        s.stored k t,
      );
    }

pub set-InStep :
    (key value : String) (ttl : ℕ) (tags : List String) (now : ℕ) (c : Cache)
    → InStep c
    → InStep (set key value ttl tags now c)
unfolding set
set-InStep key value ttl tags now c s =
    let d = record c { entries = insert key (value, now + ttl) c.entries } in
    record {
      agree = λ t k. ground (
        arith,
        associate-tags key tags d t k,
        associate-tagged key tags d t k s.agree,
        s.agree t k,
      );
      stored = λ k t h. ground (
        arith,
        associate-tags key tags d t k,
        associate-entries key tags d t k,
        lookup-insert key k (value, now + ttl) c.entries,
        s.stored k t,
      );
    }
