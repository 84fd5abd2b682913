-- ===== src/Coordination/Tests.antt =====
-- Runs of the process-local coordination adapters, and their theorems at concrete inputs.
use grelmicro.Prelude.{
  inl, inr, eq_iff, ◌<◌, ◌≤◌, ◌≢◌, refl, some, String, List, [], ◌∷◌, arith, string_eq, eq_iff,
}
use grelmicro.Dict.{lookup, insert}
use grelmicro.Coordination.Lock
use grelmicro.Coordination.Lock.{Locks, init, Acquired, fence, refused, key_error}
use grelmicro.Coordination.Lock.Fencing.{Call, acquire, release, run, after, fence_grows}
use grelmicro.Coordination.Lock.Holding.{lease-Excludes, Excludes}
use grelmicro.Coordination.Schedule.{won, last_fired, Above, won-Above}
use grelmicro.Coordination.Leader.{LeaderRecord, Records, acquire_or_renew}
use grelmicro.Coordination.Leader.Lease
use grelmicro.Coordination.Leader.Lease.{
  Leads, lease-Leads, acquire_or_renew_leads, transitions-release, renew, leave,
}

abbrev a : String
a = "a"

abbrev b : String
b = "b"

a-ne-b : ◌≢◌ {A = String} a b
a-ne-b p = cc ((eq_iff a b).1 p)

b-ne-a : ◌≢◌ {A = String} b a
b-ne-a p = cc ((eq_iff b a).1 p)

-- `a` takes the lock at 0 for 10, and `b` takes it over at 11.
abbrev takeover : List Call
takeover = acquire "cart" b 10 5 5 ∷ release "cart" b 6 6 ∷ []

abbrev held : Locks
held = record { locks = ("cart", (some a, 10)) ∷ []; fences = ("cart", 1) ∷ [] }

fence_grows_example : (1 ≤ 2) × (◌≢◌ {A = String} a b → 1 < 2)
unfolding Lock.acquire Lock.release run after lookup insert
fence_grows_example = fence_grows "cart" a b 10 0 0 10 11 11 1 2 takeover init refl refl

lease-Excludes_example :
    Excludes "cart" a b 7 8 9 (run takeover (Lock.acquire "cart" a 10 0 0 init).1)
unfolding Lock.acquire lookup insert
lease-Excludes_example =
    lease-Excludes "cart" a b 10 0 0 1 8 9 7 takeover init refl
      ((b-ne-a, omega arith), ((b-ne-a, omega arith), tt)) b-ne-a (omega arith)

won-Above_example :
    Above (last_fired "report" []) (won "report" (("report", 60) ∷ ("report", 60) ∷ []) [])
won-Above_example = won-Above "report" (("report", 60) ∷ ("report", 60) ∷ []) []

abbrev led : LeaderRecord
led = record {
  holder = a;
  lease_duration = 15;
  acquired_at = 0;
  renewed_at = 5;
  transitions = 0;
  metadata = [];
}

abbrev records : Records
records = ("workers", led) ∷ []

lease-Leads_example : Leads "workers" led b 19 (
    Lease.run
      (renew "workers" b 15 [] 9 9 ∷ renew "other" a 15 [] 30 30 ∷ leave "workers" b 10 ∷ [])
      records)
unfolding acquire_or_renew lookup insert
lease-Leads_example =
    lease-Leads "workers" a b 15 [] 5 5 19
      (renew "workers" b 15 [] 9 9 ∷ renew "other" a 15 [] 30 30 ∷ leave "workers" b 10 ∷ [])
      (("workers", record led { renewed_at = 0 }) ∷ []) records led refl refl
      (
        inr (b-ne-a, omega arith),
        (inl (λ e. ground (arith, e, eq_iff "other" "workers")), (inr (b-ne-a, omega arith), tt)),
      )
      b-ne-a (omega arith)
