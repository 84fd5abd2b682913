-- ===== src/Coordination/Leader/Lease.antt =====
-- The leases of `MemoryLeaderElectionAdapter`.
use grelmicro.Prelude.{
  ℕ, ◌+◌, ◌<◌, ◌≡◌, ◌≢◌, ◌⊎◌, inl, inr, some, String, List, [], ◌∷◌, arith, string_eq, eq_iff, true,
}
use grelmicro.Dict.{Dict, lookup, lookup-insert, lookup-remove, lookup-insert_self}
use grelmicro.Coordination.Leader.{
  live, next_transitions, LeaderRecord, Records, acquire_or_renew, release,
}

-- What a worker calls: an acquisition with its token, duration, metadata and readings of the
-- clock, or a release.
pub data Call : Type 0 where
  renew : String → String → ℕ → Dict String String → ℕ → ℕ → Call
  leave : String → String → ℕ → Call

pub run : List Call → Records → Records
run [] records = records
run (renew name token duration metadata now later ∷ calls) records =
    run calls (acquire_or_renew name token duration metadata now later records).1
run (leave name token now ∷ calls) records = run calls (release name token now records).1

-- A call with another token before the lease ends, or any call on another election.
abbrev pub IsForeign : String → String → ℕ → Call → Type 0
IsForeign name token end (renew other t duration metadata now later) =
    (other ≢ name) ⊎ ((t ≢ token) × (later < end))
IsForeign name token end (leave other t now) = (other ≢ name) ⊎ ((t ≢ token) × (now < end))

abbrev pub AllForeign : String → String → ℕ → List Call → Type 0
AllForeign name token end [] = Unit
AllForeign name token end (c ∷ calls) = IsForeign name token end c × AllForeign name token end calls

module _ (name : String) (r : LeaderRecord) where
  renew-foreign :
      (other t : String) (duration : ℕ) (metadata : Dict String String) (now later : ℕ)
      (records : Records)
      → lookup name records ≡ some r
      → IsForeign name r.holder
          (r.renewed_at + r.lease_duration)
          (renew other t duration metadata now later)
      → lookup name (acquire_or_renew other t duration metadata now later records).1 ≡ some r
  unfolding acquire_or_renew
  renew-foreign other t duration metadata now later records e (inl elsewhere) =
      grind (arith, lookup-insert, eq_iff other name)
  renew-foreign other t duration metadata now later records e (inr h) =
      grind (arith, lookup-insert, eq_iff other name, eq_iff r.holder t)

  leave-foreign :
      (other t : String) (now : ℕ) (records : Records)
      → lookup name records ≡ some r
      → IsForeign name r.holder (r.renewed_at + r.lease_duration) (leave other t now)
      → lookup name (release other t now records).1 ≡ some r
  unfolding release
  leave-foreign other t now records e (inl elsewhere) =
      grind (arith, lookup-remove, eq_iff other name)
  leave-foreign other t now records e (inr h) =
      grind (arith, lookup-remove, eq_iff other name, eq_iff r.holder t)

  run_foreign :
      (calls : List Call) (records : Records)
      → lookup name records ≡ some r
      → AllForeign name r.holder (r.renewed_at + r.lease_duration) calls
      → lookup name (run calls records) ≡ some r
  unfolding run
  run_foreign [] records e h = e
  run_foreign (renew other t duration metadata now later ∷ calls) records e h =
      run_foreign calls (acquire_or_renew other t duration metadata now later records).1
        (renew-foreign other t duration metadata now later records e h.0) h.1
  run_foreign (leave other t now ∷ calls) records e h =
      run_foreign calls (release other t now records).1 (leave-foreign other t now records e h.0)
        h.1

granted_entry :
    (name token : String) (duration : ℕ) (metadata : Dict String String) (now later : ℕ)
    (records records' : Records) (r : LeaderRecord)
    → acquire_or_renew name token duration metadata now later records ≡ (r, records')
    → r.holder ≡ token
    → lookup name records' ≡ some r
unfolding acquire_or_renew
granted_entry name token duration metadata now later records records' r e h =
    grind (arith, lookup-insert_self, eq_iff)

-- `r` leads: it is the live record, and a worker with another token that tries is told so and
-- changes nothing.
abbrev pub Leads : String → LeaderRecord → String → ℕ → Records → Type 0
Leads name r other now records =
    (live name now records ≡ some r)
    × ((duration : ℕ) (metadata : Dict String String) (before : ℕ)
        → acquire_or_renew name other duration metadata before now records ≡ (r, records))

entry-Leads :
    (name other : String) (now : ℕ) (r : LeaderRecord) (records : Records)
    → lookup name records ≡ some r
    → other ≢ r.holder
    → now < r.renewed_at + r.lease_duration
    → Leads name r other now records
unfolding acquire_or_renew live
entry-Leads name other now r records e ne lt =
    (ground arith, λ duration metadata before. ground (arith, eq_iff r.holder other))

-- A worker that gets a record with its own token leads until the lease of that record ends, whatever
-- workers with other tokens call on this election before then, and anybody on other elections at any
-- time.
pub lease-Leads :
    (name token other : String) (duration : ℕ) (metadata : Dict String String) (now later now' : ℕ)
    (calls : List Call) (records records' : Records) (r : LeaderRecord)
    → acquire_or_renew name token duration metadata now later records ≡ (r, records')
    → r.holder ≡ token
    → AllForeign name r.holder (r.renewed_at + r.lease_duration) calls
    → other ≢ r.holder
    → now' < r.renewed_at + r.lease_duration
    → Leads name r other now' (run calls records')
lease-Leads name token other duration metadata now later now' calls records records' r e h foreign
      ne lt =
    entry-Leads name other now' r (run calls records')
      (run_foreign name r calls records'
        (granted_entry name token duration metadata now later records records' r e h) foreign)
      ne lt

-- What a worker gets when it leads: a lease that runs from its first reading of the clock on, and
-- the transitions of the stored record, one more if that had another holder, and none if no record
-- was stored.
pub acquire_or_renew_leads :
    (name token : String) (duration : ℕ) (metadata : Dict String String) (now later : ℕ)
    (records records' : Records) (r : LeaderRecord)
    → acquire_or_renew name token duration metadata now later records ≡ (r, records')
    → r.holder ≡ token
    → (r.renewed_at ≡ now)
      × (r.lease_duration ≡ duration)
      × (r.transitions ≡ next_transitions token (lookup name records))
unfolding acquire_or_renew live
acquire_or_renew_leads name token duration metadata now later records records' r e h =
    grind (arith, eq_iff)

-- `release` deletes the record, so the count starts again: when a leader has released its lease,
-- the next worker's record says that the lease has never changed holder.
pub transitions-release :
    (name token other : String) (released duration now later : ℕ) (metadata : Dict String String)
    (records : Records)
    → (release name token released records).0 ≡ true
    → (acquire_or_renew name other duration metadata now later
        (release name token released records).1).0.transitions
      ≡ 0
unfolding release acquire_or_renew live
transitions-release name token other released duration now later metadata records h =
    ground (arith, lookup-remove name name records, eq_iff name name)
