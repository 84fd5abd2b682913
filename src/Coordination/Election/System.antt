-- ===== src/Coordination/Election/System.antt =====
-- The workers of an election of coordination/leaderelection.py over one backend. The calls of a worker
-- follow one another: its next one is made when the last one is answered or has failed.
use grelmicro.Prelude.{
  ℕ, ◌+◌, ◌≤◌, Bool, true, false, Option, none, some, String, List, [], ◌∷◌, ltb, if◌then◌else◌,
  string_eq, ◌&&◌,
}
use grelmicro.Dict.{Dict, lookup, insert, remove}
use grelmicro.Coordination.Leader
use grelmicro.Coordination.Leader.{LeaderRecord, Records}
use grelmicro.Coordination.Election.{LeaderElectionConfig, LeaderElection, init, answered, failed}

-- The workers, by their names, and the answers of the backend that have not arrived, with the time of
-- the call.
pub record System : Type 0 where
  pub records : Records
  pub workers : Dict String LeaderElection
  pub answers : Dict String (LeaderRecord × ℕ)

-- The backend runs a worker's call; the worker gets the answer; it gives up on the call, whether the
-- backend ran it or not; the worker stops, and releases.
pub data Event : Type 0 where
  calls arrives fails stops : String → Event

abbrev pub started : Records → System
started records = record { records = records; workers = []; answers = [] }

-- The worker of the event does not stop.
abbrev pub stays : Event → Bool
stays (calls w) = true
stays (arrives w) = true
stays (fails w) = true
stays (stops w) = false

abbrev pub all_stay : List (ℕ × Event) → Bool
all_stay [] = true
all_stay ((now, e) ∷ es) = stays e && all_stay es

module _ (config : LeaderElectionConfig) (name : String) where
  abbrev pub worker_of : String → ℕ → System → LeaderElection
  worker_of w now s = elim (lookup w s.workers) [ none ↦ init now | some e ↦ e ]

  abbrev pub call : String → ℕ → System → System
  call w now s =
      let (r, records) =
        Leader.acquire_or_renew name w config.lease_duration [] now now s.records in
      record s { records = records; answers = insert w (r, now) s.answers }

  abbrev pub fail : String → ℕ → System → System
  fail w now s = record s {
    workers = insert w (failed config now (worker_of w now s)) s.workers;
    answers = remove w s.answers;
  }

  -- An answer that comes after the timeout of the call has failed it.
  abbrev pub arrive : String → ℕ → System → Option (LeaderRecord × ℕ) → System
  arrive w now s none = s
  arrive w now s (some (r, at)) =
      if ltb (at + config.backend_timeout) now then fail w now s else record s {
        workers = insert w (answered config w r now (worker_of w now s)) s.workers;
        answers = remove w s.answers;
      }

  -- `_release`
  abbrev pub stop : String → ℕ → System → System
  stop w now s = record s { records = (Leader.release name w now s.records).1 }

  unfoldable pub happen : ℕ → Event → System → System
  happen now (calls w) s = call w now s
  happen now (arrives w) s = arrive w now s (lookup w s.answers)
  happen now (fails w) s = fail w now s
  happen now (stops w) s = stop w now s

  unfoldable pub happens : List (ℕ × Event) → System → System
  unfolding happen
  happens [] s = s
  happens ((now, e) ∷ es) s = happens es (happen now e s)

-- The times do not go back.
abbrev pub InOrder : ℕ → List (ℕ × Event) → ℕ → Type 0
InOrder start [] end = start ≤ end
InOrder start ((now, e) ∷ es) end = (start ≤ now) × InOrder now es end
