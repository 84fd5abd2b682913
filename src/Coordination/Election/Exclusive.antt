-- ===== src/Coordination/Election/Exclusive.antt =====
-- Who leads an election of coordination/leaderelection.py, in the interleavings of the workers' calls
-- without a stop.
use grelmicro.Prelude.{
  ℕ, ◌+◌, ◌≤◌, ◌<◌, ◌≡◌, refl, ap, sym, ◌∙◌, true, Option, none, some, String, List, [], ◌∷◌, ltb,
  string_eq, arith, Bool-cases, inl, inr,
}
use mathlib.Core.Path.{subst}
use grelmicro.Dict.{lookup}
use grelmicro.Coordination.Leader
use grelmicro.Coordination.Leader.{LeaderRecord, Records}
use grelmicro.Coordination.Election.{
  LeaderElectionConfig, LeaderElection, init, answered, failed, is_leader,
  is_renew_deadline_reached,
}
use grelmicro.Coordination.Election.System.{
  System, started, stays, all_stay, Event, calls, arrives, fails, stops, worker_of, call, fail,
  arrive, happen, happens, InOrder,
}
use grelmicro.Coordination.Election.Covering.{
  covers, Covered, renewed, renewed_self, answer_lem, entry_lem, later-covers, covers_one,
}
use grelmicro.Coordination.Election.Believing.{
  insert-Holds, remove-Holds, Believes, Stands, Awaits, later-Believes, later-Awaits, call-Believes,
  call-Awaits, answered-Believes, failed-Believes,
}

module _ (config : LeaderElectionConfig) (name w : String) where
  -- What holds of a worker at a time.
  abbrev Holds : ℕ → System → Type 0
  Holds now s =
      Stands config w now (lookup name s.records) (lookup w s.workers)
      × Awaits config w now (lookup name s.records) (lookup w s.answers)

  Stands-Believes :
      (now : ℕ) (o : Option LeaderRecord) (x : Option LeaderElection)
      → Stands config w now o x
      → Believes config w now o (elim x [ none ↦ init now | some e ↦ e ])
  Stands-Believes now o none h = λ leading. ground (arith, leading)
  Stands-Believes now o (some e) h = h

  later-Stands :
      (start now : ℕ) (o : Option LeaderRecord) (x : Option LeaderElection)
      → start ≤ now
      → Stands config w start o x
      → Stands config w now o x
  later-Stands start now o none le h = tt
  later-Stands start now o (some e) le h = later-Believes config w start now o e le h

  call-Stands :
      (caller : String) (now : ℕ) (o : Option LeaderRecord) (x : Option LeaderElection)
      → config.renew_deadline ≤ config.lease_duration
      → Stands config w now o x
      → Stands config w now (some (renewed caller config.lease_duration now o)) x
  call-Stands caller now o none valid h = tt
  call-Stands caller now o (some e) valid h =
      call-Believes config w caller now now o e (omega arith) valid h

  started-Holds : (now : ℕ) (records : Records) → Holds now (started records)
  unfolding lookup
  started-Holds now records = (tt, tt)

  -- Time passes.
  later-Holds : (start now : ℕ) (s : System) → start ≤ now → Holds start s → Holds now s
  later-Holds start now s le h = (
    later-Stands start now (lookup name s.records) (lookup w s.workers) le h.0,
    later-Awaits config w start now (lookup name s.records) (lookup w s.answers) le h.1,
  )

  call-Holds :
      (caller : String) (now : ℕ) (s : System)
      → config.renew_deadline + config.backend_timeout ≤ config.lease_duration
      → Holds now s
      → Holds now (call config name caller now s)
  call-Holds caller now s valid h =
      let o : Option LeaderRecord = lookup name s.records in
      let r : LeaderRecord =
        (Leader.acquire_or_renew name caller config.lease_duration [] now now s.records).0 in
      rw (entry_lem name caller config.lease_duration now s.records o refl) (
        call-Stands caller now o (lookup w s.workers) (omega (arith, valid)) h.0,
        insert-Holds (Awaits config w now (some (renewed caller config.lease_duration now o))) w
            caller (r, now) s.answers
            (λ same. (
              omega arith,
              λ mine lt. rw same (
                  renewed_self w now config.lease_duration o (
                    subst (λ k. (renewed k config.lease_duration now o).holder ≡ w) same
                      (ap (λ x. x.holder)
                          (sym (answer_lem name caller config.lease_duration now s.records o refl))
                        ∙ mine))),
            ))
            (call-Awaits config w caller now now o (lookup w s.answers) (omega arith) h.1),
      )

  fail-Holds :
      (caller : String) (now : ℕ) (s : System)
      → Holds now s
      → Holds now (fail config name caller now s)
  fail-Holds caller now s h =
      let o : Option LeaderRecord = lookup name s.records in
      (
        insert-Holds (Stands config w now o) w caller
            (failed config now (worker_of config name caller now s)) s.workers
            (λ same. rw same (
              failed-Believes config w now o (worker_of config name w now s)
                (Stands-Believes now o (lookup w s.workers) h.0)))
            h.0,
        remove-Holds (Awaits config w now o) w caller s.answers tt h.1,
      )

  answer-Holds :
      (caller : String) (now : ℕ) (s : System) (answer : Option (LeaderRecord × ℕ))
      → lookup caller s.answers ≡ answer
      → config.renew_deadline + config.backend_timeout ≤ config.lease_duration
      → Holds now s
      → Holds now (arrive config name caller now s answer)
  answer-Holds caller now s none e valid h = h
  answer-Holds caller now s (some (r, at)) e valid h =
      let o : Option LeaderRecord = lookup name s.records in
      elim (Bool-cases (ltb (at + config.backend_timeout) now)) [
        | inl late ↦ rw late (fail-Holds caller now s h)
        | inr in_time ↦ rw in_time (
          insert-Holds (Stands config w now o) w caller
              (answered config caller r now (worker_of config name caller now s)) s.workers
              (λ same. rw same (
                answered-Believes config w now now at r o (worker_of config name w now s)
                  (omega arith) valid (ground (arith, in_time))
                  (subst (λ x. Awaits config w now o x)
                    (subst (λ k. lookup k s.answers ≡ some (r, at)) same e) h.1)))
              h.0,
          remove-Holds (Awaits config w now o) w caller s.answers tt h.1,
        )
      ]

  happen-Holds :
      (now : ℕ) (e : Event) (s : System)
      → stays e ≡ true
      → config.renew_deadline + config.backend_timeout ≤ config.lease_duration
      → Holds now s
      → Holds now (happen config name now e s)
  unfolding happen
  happen-Holds now (calls caller) s stay valid h = call-Holds caller now s valid h
  happen-Holds now (arrives caller) s stay valid h =
      answer-Holds caller now s (lookup caller s.answers) refl valid h
  happen-Holds now (fails caller) s stay valid h = fail-Holds caller now s h
  happen-Holds now (stops caller) s stay valid h = ground (arith, stay)

  happens-Holds :
      (start end : ℕ) (events : List (ℕ × Event)) (s : System)
      → InOrder start events end
      → all_stay events ≡ true
      → config.renew_deadline + config.backend_timeout ≤ config.lease_duration
      → Holds start s
      → Holds end (happens config name events s)
  unfolding happens
  happens-Holds start end [] s order stay valid h = later-Holds start end s order h
  happens-Holds start end ((now, e) ∷ events) s order stay valid h =
      happens-Holds now end events (happen config name now e s) order.1 (ground (arith, stay)) valid
        (happen-Holds now e s (ground (arith, stay)) valid (later-Holds start now s order.0 h))

  leader-covers :
      (now : ℕ) (s : System)
      → Holds now s
      → is_leader config now (worker_of config name w now s) ≡ true
      → covers w now (lookup name s.records) ≡ true
  unfolding is_leader is_renew_deadline_reached
  leader-covers now s h lead =
      let e : LeaderElection = worker_of config name w now s in
      let leading : e.is_leading ≡ true = ground (arith, lead) in
      let recent : now < e.state_updated_at + config.renew_deadline = ground (arith, lead) in
      let b : (e.state_updated_at ≤ now)
          × Covered w (e.state_updated_at + config.renew_deadline) now (lookup name s.records) =
        Stands-Believes now (lookup name s.records) (lookup w s.workers) h.0 leading in
      later-covers w (e.state_updated_at + config.renew_deadline) now (lookup name s.records)
        (omega (arith, recent)) (b.1 recent)

-- No two workers are `is_leader` at the same time: if every call is answered within its timeout or
-- fails, and no worker has stopped, whatever the interleaving of their calls, provided that the lease
-- is at least as long as the renew deadline and the timeout of the backend together.
pub exclusive :
    (config : LeaderElectionConfig) (name a b : String) (records : Records) (start end : ℕ)
    (events : List (ℕ × Event))
    → config.renew_deadline + config.backend_timeout ≤ config.lease_duration
    → InOrder start events end
    → all_stay events ≡ true
    → is_leader config end
        (worker_of config name a end (happens config name events (started records)))
      ≡ true
    → is_leader config end
        (worker_of config name b end (happens config name events (started records)))
      ≡ true
    → a ≡ b
exclusive config name a b records start end events valid order stay lead_a lead_b =
    let s : System = happens config name events (started records) in
    let at_end : (w : String) → Holds config name w end s = λ w.
      happens-Holds config name w start end events (started records) order stay valid
        (started-Holds config name w start records) in
    covers_one a b end (lookup name s.records) (leader-covers config name a end s (at_end a) lead_a)
      (leader-covers config name b end s (at_end b) lead_b)
