-- ===== src/Coordination/Election/Covering.antt =====
-- The record of an election of coordination/memory.py that a call of a worker leaves, and how long
-- it stands.
use grelmicro.Prelude.{
  ℕ, ◌+◌, ◌≤◌, ◌<◌, ◌≡◌, refl, sym, ◌∙◌, Bool, true, false, ◌&&◌, Option, none, some, String, [],
  leb, ◌==◌, if◌then◌else◌, string_eq, arith, eq_iff,
}
use grelmicro.Dict.{lookup, lookup-insert_self}
use grelmicro.Coordination.Leader
use grelmicro.Coordination.Leader.{LeaderRecord, Records}

-- A record of the worker whose lease does not end before.
abbrev pub covers : String → ℕ → Option LeaderRecord → Bool
covers w until none = false
covers w until (some r) = r.holder == w && leb until (r.renewed_at + r.lease_duration)

-- While it is before that time, the record stands.
abbrev pub Covered : String → ℕ → ℕ → Option LeaderRecord → Type 0
Covered w until now o = now < until → covers w until o ≡ true

-- The record that a call leaves, by the one it finds.
unfoldable pub renewed : String → ℕ → ℕ → Option LeaderRecord → LeaderRecord
renewed caller duration now none = Leader.fresh caller duration [] now none
renewed caller duration now (some r) =
    if leb (r.renewed_at + r.lease_duration) now
    then Leader.fresh caller duration [] now (some r)
    else if r.holder == caller
    then record r { renewed_at = now; lease_duration = duration; metadata = [] }
    else r

renewed-covers :
    (w caller : String) (until now duration : ℕ) (o : Option LeaderRecord)
    → until ≤ now + duration
    → now < until
    → covers w until o ≡ true
    → covers w until (some (renewed caller duration now o)) ≡ true
unfolding renewed
renewed-covers w caller until now duration none enough lt c = ground (arith, c)
renewed-covers w caller until now duration (some r) enough lt c =
    grind (arith, eq_iff r.holder w, eq_iff r.holder caller, eq_iff caller w)

pub renewed_self :
    (w : String) (now duration : ℕ) (o : Option LeaderRecord)
    → (renewed w duration now o).holder ≡ w
    → covers w (now + duration) (some (renewed w duration now o)) ≡ true
unfolding renewed
renewed_self w now duration none h = ground (arith, eq_iff w w)
renewed_self w now duration (some r) h = grind (arith, eq_iff r.holder w, eq_iff w w)

module _ (name caller : String) (duration now : ℕ) where
  pub answer_lem :
      (records : Records) (o : Option LeaderRecord)
      → lookup name records ≡ o
      → (Leader.acquire_or_renew name caller duration [] now now records).0
        ≡ renewed caller duration now o
  unfolding Leader.acquire_or_renew Leader.live renewed
  answer_lem records none e = rw (e, Leader.acquire_or_renew) (rw e refl)
  answer_lem records (some r) e = ground arith

  pub entry_lem :
      (records : Records) (o : Option LeaderRecord)
      → lookup name records ≡ o
      → lookup name (Leader.acquire_or_renew name caller duration [] now now records).1
        ≡ some (renewed caller duration now o)
  unfolding Leader.acquire_or_renew Leader.live renewed
  entry_lem records none e =
      rw (e, Leader.acquire_or_renew)
        (rw e (lookup-insert_self name (Leader.fresh caller duration [] now none) records))
  entry_lem records (some r) e = grind (arith, lookup-insert_self)

pub later-covers :
    (w : String) (until until' : ℕ) (o : Option LeaderRecord)
    → until' ≤ until
    → covers w until o ≡ true
    → covers w until' o ≡ true
later-covers w until until' none sooner c = c
later-covers w until until' (some r) sooner c = ground (arith, c, sooner)

pub covers_one :
    (a b : String) (now : ℕ) (o : Option LeaderRecord)
    → covers a now o ≡ true
    → covers b now o ≡ true
    → a ≡ b
covers_one a b now none ca cb = ground (arith, ca)
covers_one a b now (some r) ca cb =
    let holder_a : r.holder ≡ a = ground (arith, ca, eq_iff r.holder a) in
    let holder_b : r.holder ≡ b = ground (arith, cb, eq_iff r.holder b) in sym holder_a ∙ holder_b

pub later-Covered :
    (w : String) (until until' start now : ℕ) (o : Option LeaderRecord)
    → start ≤ now
    → until' ≤ until
    → Covered w until start o
    → Covered w until' now o
later-Covered w until until' start now o le sooner c lt =
    later-covers w until until' o sooner (c (omega (arith, le, sooner, lt)))

pub renewed-Covered :
    (w caller : String) (until start now duration : ℕ) (o : Option LeaderRecord)
    → start ≤ now
    → until ≤ now + duration
    → Covered w until start o
    → Covered w until now (some (renewed caller duration now o))
renewed-Covered w caller until start now duration o le enough c lt =
    renewed-covers w caller until now duration o enough lt (c (omega (arith, le, lt)))
