-- ===== src/Coordination/Election/Tests.antt =====
-- The runs and the witnesses of the elections of coordination/leaderelection.py.
use grelmicro.Prelude.{ℕ, ◌≡◌, refl, true, false, String, List, [], ◌∷◌, arith, string_eq}
use grelmicro.Dict.{lookup, insert, remove}
use grelmicro.Coordination.Leader
use grelmicro.Coordination.Election.{
  is_valid, LeaderElectionConfig, answered, failed, is_leader, is_renew_deadline_reached,
  update_state, check_error_interval,
}
use grelmicro.Coordination.Election.System.{
  Event, calls, arrives, fails, worker_of, happen, happens, started,
}
use grelmicro.Coordination.Election.Exclusive.{exclusive}

-- The default durations, in seconds.
abbrev config : LeaderElectionConfig
config = record {
  lease_duration = 15;
  renew_deadline = 10;
  retry_interval = 2;
  backend_timeout = 5;
  error_interval = 30;
}

-- One worker leads, the other is refused, and takes over after a partition.
abbrev partition : List (ℕ × Event)
partition =
    (1, calls "a")
    ∷ (1, calls "b")
    ∷ (2, arrives "b")
    ∷ (3, arrives "a")
    ∷ (6, fails "a")
    ∷ (17, calls "b")
    ∷ (18, arrives "b")
    ∷ []

b_takes_over :
    is_leader config 18
      (worker_of config "jobs" "b" 18 (happens config "jobs" partition (started [])))
    ≡ true
unfolding happens happen Leader.acquire_or_renew Leader.live lookup insert remove answered failed
    update_state check_error_interval is_leader is_renew_deadline_reached
b_takes_over = refl

a_steps_down :
    is_leader config 18
      (worker_of config "jobs" "a" 18 (happens config "jobs" partition (started [])))
    ≡ false
unfolding happens happen Leader.acquire_or_renew Leader.live lookup insert remove answered failed
    update_state check_error_interval is_leader is_renew_deadline_reached
a_steps_down = refl

exclusive_example : ◌≡◌ {A = String} "b" "b"
exclusive_example =
    exclusive config "jobs" "b" "b" [] 0 18 partition (ground arith)
      (
        ground arith,
        (
          ground arith,
          (
            ground arith,
            (ground arith, (ground arith, (ground arith, (ground arith, ground arith)))),
          ),
        ),
      )
      refl b_takes_over b_takes_over

-- `LeaderElectionConfig._validate` takes these durations, and an answer that comes late, within the
-- timeout of its call, lets the first worker lead when the lease has passed to the second one.
abbrev short_lease : LeaderElectionConfig
short_lease = record config { lease_duration = 11 }

abbrev late_answer : List (ℕ × Event)
late_answer = (1, calls "a") ∷ (6, arrives "a") ∷ (13, calls "b") ∷ (13, arrives "b") ∷ []

late_answer_overlaps :
    (is_valid short_lease ≡ true)
    × (is_leader short_lease 13 (
          worker_of short_lease "jobs" "a" 13 (happens short_lease "jobs" late_answer (started [])))
        ≡ true)
    × (is_leader short_lease 13 (
          worker_of short_lease "jobs" "b" 13 (happens short_lease "jobs" late_answer (started [])))
        ≡ true)
unfolding happens happen Leader.acquire_or_renew Leader.live lookup insert remove answered failed
    update_state check_error_interval is_leader is_renew_deadline_reached
late_answer_overlaps = (refl, refl, refl)
