-- ===== src/Coordination/Leader.antt =====
-- `MemoryLeaderElectionAdapter` of coordination/memory.py: the lease record of each election. The
-- wall clock and the durations are whole numbers of microseconds; `_live` reads the clock itself.
pub mod Lease
use grelmicro.Prelude.{
  ℕ, ◌+◌, Bool, true, false, not, ◌&&◌, ◌||◌, Option, none, some, String, List, leb, ◌==◌,
  if◌then◌else◌, string_eq,
}
use grelmicro.Dict.{Dict, lookup, insert, remove}

pub record LeaderRecord : Type 0 where
  pub holder : String
  pub lease_duration : ℕ
  pub acquired_at : ℕ
  pub renewed_at : ℕ
  pub transitions : ℕ
  pub metadata : Dict String String

abbrev pub Records : Type 0
Records = Dict String LeaderRecord

-- The tests of `_live` on a record that is there.
abbrev pub unexpired : ℕ → Option LeaderRecord → Option LeaderRecord
unexpired now none = none
unexpired now (some r) = if leb (r.renewed_at + r.lease_duration) now then none else some r

unfoldable pub live : String → ℕ → Records → Option LeaderRecord
live name now records = unexpired now (lookup name records)

-- `transitions` of a record that replaces the previous one.
abbrev pub next_transitions : String → Option LeaderRecord → ℕ
next_transitions token none = 0
next_transitions token (some r) = if r.holder == token then r.transitions else r.transitions + 1

abbrev pub fresh : String → ℕ → Dict String String → ℕ → Option LeaderRecord → LeaderRecord
fresh token duration metadata now previous = record {
  holder = token;
  lease_duration = duration;
  acquired_at = now;
  renewed_at = now;
  transitions = next_transitions token previous;
  metadata = metadata;
}

unfoldable pub acquire_or_renew :
    String → String → ℕ → Dict String String → ℕ → ℕ → Records → LeaderRecord × Records
unfolding live
acquire_or_renew name token duration metadata now later records = elim (live name later records) [
  | none ↦
      let r = fresh token duration metadata now (lookup name records) in (r, insert name r records)
  | some current ↦
      if current.holder == token
      then (let r : LeaderRecord = record current {
        renewed_at = now;
        lease_duration = duration;
        metadata = metadata;
      } in
          (r, insert name r records))
      else (current, records)
]

unfoldable pub release : String → String → ℕ → Records → Bool × Records
unfolding live
release name token now records = elim (live name now records) [
  | none ↦ (false, records)
  | some current ↦ if current.holder == token then (true, remove name records) else (false, records)
]

-- `get` is `_live`.
pub get : String → ℕ → Records → Option LeaderRecord
unfolding live
get name now records = live name now records
