-- ===== src/Coordination/Election/Believing.antt =====
-- What holds of a worker of coordination/leaderelection.py, and of the answer on its way to it, while
-- others call the backend.
use grelmicro.Prelude.{
  ℕ, ◌+◌, ◌-◌, ◌≤◌, ◌≡◌, true, Option, none, some, String, leb, ◌==◌, string_eq, arith, Bool-cases,
  inl, inr, eq_iff,
}
use grelmicro.Dict.{Dict, lookup, insert, remove, lookup-insert, lookup-remove}
use grelmicro.Coordination.Leader.{LeaderRecord}
use grelmicro.Coordination.Election.{
  LeaderElectionConfig, LeaderElection, answered, failed, is_renew_deadline_reached, update_state,
  check_error_interval,
}
use grelmicro.Coordination.Election.Covering.{Covered, renewed, renewed-Covered, later-Covered}

-- A worker leads on a confirmation that is not older than its lease.
abbrev pub Believes :
    LeaderElectionConfig → String → ℕ → Option LeaderRecord → LeaderElection → Type 0
Believes config w now o e =
    e.is_leading ≡ true
    → (e.state_updated_at ≤ now) × Covered w (e.state_updated_at + config.renew_deadline) now o

-- A worker that there is.
abbrev pub Stands :
    LeaderElectionConfig → String → ℕ → Option LeaderRecord → Option LeaderElection → Type 0
Stands config w now o none = Unit
Stands config w now o (some e) = Believes config w now o e

-- The answer on its way to a worker.
abbrev pub Awaits :
    LeaderElectionConfig → String → ℕ → Option LeaderRecord → Option (LeaderRecord × ℕ) → Type 0
Awaits config w now o none = Unit
Awaits config w now o (some (r, at)) =
    (at ≤ now) × (r.holder ≡ w → Covered w (at + config.lease_duration) now o)

module _ (config : LeaderElectionConfig) (w : String) where
  pub later-Believes :
      (start now : ℕ) (o : Option LeaderRecord) (e : LeaderElection)
      → start ≤ now
      → Believes config w start o e
      → Believes config w now o e
  later-Believes start now o e le b leading = (
    omega (arith, le, (b leading).0),
    later-Covered w (e.state_updated_at + config.renew_deadline)
        (e.state_updated_at + config.renew_deadline) start now o le (omega arith) (b leading).1,
  )

  pub later-Awaits :
      (start now : ℕ) (o : Option LeaderRecord) (answer : Option (LeaderRecord × ℕ))
      → start ≤ now
      → Awaits config w start o answer
      → Awaits config w now o answer
  later-Awaits start now o none le a = tt
  later-Awaits start now o (some (r, at)) le a = (
    omega (arith, le, a.0),
    λ h.
        later-Covered w (at + config.lease_duration) (at + config.lease_duration) start now o le
          (omega arith) (a.1 h),
  )

  pub call-Believes :
      (caller : String) (start now : ℕ) (o : Option LeaderRecord) (e : LeaderElection)
      → start ≤ now
      → config.renew_deadline ≤ config.lease_duration
      → Believes config w start o e
      → Believes config w now (some (renewed caller config.lease_duration now o)) e
  call-Believes caller start now o e le valid b leading = (
    omega (arith, le, (b leading).0),
    renewed-Covered w caller (e.state_updated_at + config.renew_deadline) start now
        config.lease_duration o le (omega (arith, le, valid, (b leading).0)) (b leading).1,
  )

  pub call-Awaits :
      (caller : String) (start now : ℕ) (o : Option LeaderRecord)
      (answer : Option (LeaderRecord × ℕ))
      → start ≤ now
      → Awaits config w start o answer
      → Awaits config w now (some (renewed caller config.lease_duration now o)) answer
  call-Awaits caller start now o none le a = tt
  call-Awaits caller start now o (some (r, at)) le a = (
    omega (arith, le, a.0),
    λ h.
        renewed-Covered w caller (at + config.lease_duration) start now config.lease_duration o le
          (omega (arith, le, a.0)) (a.1 h),
  )

  pub answered-Believes :
      (start now at : ℕ) (r : LeaderRecord) (o : Option LeaderRecord) (e : LeaderElection)
      → start ≤ now
      → config.renew_deadline + config.backend_timeout ≤ config.lease_duration
      → now ≤ at + config.backend_timeout
      → Awaits config w start o (some (r, at))
      → Believes config w now o (answered config w r now e)
  unfolding answered update_state
  answered-Believes start now at r o e le valid in_time a leading = (
    omega arith,
    later-Covered w (at + config.lease_duration) (now + config.renew_deadline) start now o le
        (omega (arith, valid, in_time)) (a.1 (ground (arith, leading, eq_iff r.holder w))),
  )

  pub failed-Believes :
      (now : ℕ) (o : Option LeaderRecord) (e : LeaderElection)
      → Believes config w now o e
      → Believes config w now o (failed config now e)
  unfolding failed update_state check_error_interval is_renew_deadline_reached
  failed-Believes now o e b =
      elim (Bool-cases (leb config.renew_deadline (now - e.state_updated_at))) [
        | inl t ↦ rw t (λ leading. ground (arith, leading))
        | inr f ↦ rw f b
      ]

module _ {V : Type 0} where
  pub insert-Holds :
      (P : Option V → Type 0) (w k : String) (v : V) (d : Dict String V)
      → (k ≡ w → P (some v))
      → P (lookup w d)
      → P (lookup w (insert k v d))
  insert-Holds P w k v d new old = elim (Bool-cases (k == w)) [
    | inl t ↦ rw (lookup-insert k w v d) (rw t (new ((eq_iff k w).0 t)))
    | inr f ↦ rw (lookup-insert k w v d) (rw f old)
  ]

  pub remove-Holds :
      (P : Option V → Type 0) (w k : String) (d : Dict String V)
      → P none
      → P (lookup w d)
      → P (lookup w (remove k d))
  remove-Holds P w k d gone old = elim (Bool-cases (k == w)) [
    | inl t ↦ rw (lookup-remove k w d) (rw t gone)
    | inr f ↦ rw (lookup-remove k w d) (rw f old)
  ]
