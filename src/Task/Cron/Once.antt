-- ===== src/Task/Cron/Once.antt =====
-- Whatever the workers of task/_cron.py do, in whatever order, each fire is handled at most once.
use grelmicro.Prelude.{
  ℕ, ap, ◌<◌, ◌≡◌, refl, Bool, true, false, ◌&&◌, Option, none, some, String, List, [], ◌∷◌, arith,
  if◌then◌else◌, string_eq, ◌==◌, Bool-cases, inl, inr,
}
use grelmicro.Dict.{lookup}
use grelmicro.Coordination.Schedule.{
  Fires, claim, last_fired, Above, Exceeds, claim_own, claim_other,
}
use grelmicro.Task.Cron.{
  FireOutcome, skipped, Body, Purpose, baseline, late_fire, run_fire, decide, settle, Waiting,
  World, Report, Event, read, claim_fire, die, begin, conclude, advance, reported, run,
}

-- The fire was taken: its body ran, or it was reported lost. A worker that reports it skipped, or
-- nothing, has left it to another.
abbrev pub is_taken : Option FireOutcome → Bool
is_taken none = false
is_taken (some skipped) = false
is_taken (some _) = true

-- The fires of a schedule that the reports say were taken.
unfoldable pub taken : String → List Report → List ℕ
taken name [] = []
taken name (report ∷ reports) =
    let rest = taken name reports in
    if is_taken report.outcome && (report.name == name) then report.due ∷ rest else rest

abbrev takes : String → Option Report → Bool
takes name none = false
takes name (some report) = is_taken report.outcome && (report.name == name)

abbrev due_of : Option Report → ℕ
due_of none = 0
due_of (some report) = report.due

-- What an event does to the last fire of a schedule: it keeps it, or moves it on.
data Moves (name : String) (fires fires' : Fires) : Type 0 where
  kept : last_fired name fires' ≡ last_fired name fires → Moves name fires fires'
  moved :
      (due : ℕ)
      → last_fired name fires' ≡ some due
      → Exceeds (last_fired name fires) due
      → Moves name fires fires'

claim-Moves :
    (name other : String) (due : ℕ) (fires : Fires) → Moves name fires (claim other due fires).1
unfolding last_fired
claim-Moves name other due fires =
    elim (Bool-cases ((claim other due fires).0 && (other == name))) [
      | inl mine ↦ let (last, above) = claim_own name other due fires mine in moved due last above
      | inr not_mine ↦ kept (claim_other name other due fires not_mine)
    ]

settle-won :
    (purpose : Purpose) (won : Bool) (body : Body)
    → is_taken (settle purpose won body) ≡ true
    → won ≡ true
settle-won baseline won body h = ground arith
settle-won late_fire true body h = refl
settle-won late_fire false body h = h
settle-won run_fire true body h = refl
settle-won run_fire false body h = h

-- An event that takes a fire of the schedule moves its last fire on to that fire.
abbrev Step : String → Option Report → Fires → Fires → Type 0
Step name report fires fires' =
    Moves name fires fires'
    × (takes name report ≡ true
        → (last_fired name fires' ≡ some (due_of report))
          × Exceeds (last_fired name fires) (due_of report))

begin-Step :
    (name worker other : String) (due : ℕ) (grace : Option ℕ) (catchup : Bool) (now : ℕ) (w : World)
    → (let (report, w') =
          begin worker other due (decide grace catchup now due (last_fired other w.fires)) w in
        (w'.fires ≡ w.fires) × (takes name report ≡ false))
begin-Step name worker other due grace catchup now w = ground arith

conclude-Step :
    (name worker : String) (body : Body) (waiting : Option Waiting) (w : World)
    → (let (report, w') = conclude worker body waiting w in Step name report w.fires w'.fires)
unfolding last_fired
conclude-Step name worker body none w = (kept refl, λ h. ground arith)
conclude-Step name worker body (some waiting) w =
    let won = (claim waiting.name waiting.due w.fires).0 in
    (
      claim-Moves name waiting.name waiting.due w.fires,
      λ h.
          claim_own name waiting.name waiting.due w.fires
            (ground (arith, h, settle-won waiting.purpose won body)),
    )

Exceeds-trans :
    (bound : Option ℕ) (due later : ℕ) → Exceeds bound due → due < later → Exceeds bound later
Exceeds-trans none due later e lt = tt
Exceeds-trans (some last) due later e lt = omega arith

Above-Exceeds :
    (bound : Option ℕ) (due : ℕ) (dues : List ℕ)
    → Exceeds bound due
    → Above (some due) dues
    → Above bound dues
Above-Exceeds bound due [] e a = tt
Above-Exceeds bound due (later ∷ dues) e a = (Exceeds-trans bound due later e a.0, a.1)

Above-Moves :
    (name : String) (fires fires' : Fires) (dues : List ℕ)
    → Moves name fires fires'
    → Above (last_fired name fires') dues
    → Above (last_fired name fires) dues
Above-Moves name fires fires' dues (kept e) a = rw (← e) a
Above-Moves name fires fires' dues (moved due e above) a =
    Above-Exceeds (last_fired name fires) due dues above (rw e at a)

advance-Step :
    (name : String) (event : Event) (w : World)
    → (let (report, w') = advance event w in Step name report w.fires w'.fires)
unfolding advance
advance-Step name (read worker other grace catchup now due) w =
    let (same, none_taken) = begin-Step name worker other due grace catchup now w in
    (kept (ap (λ fires. last_fired name fires) same), λ h. ground (arith, h, none_taken))
advance-Step name (claim_fire worker body) w =
    conclude-Step name worker body (lookup worker w.workers) w
advance-Step name (die worker) w = (kept refl, λ h. ground arith)

taken-reported :
    (name : String) (report : Option Report) (reports : List Report)
    → taken name (reported report reports)
      ≡ (if takes name report then due_of report ∷ taken name reports else taken name reports)
unfolding taken
taken-reported name none reports = refl
taken-reported name (some report) reports = refl

-- Whatever the workers do, in whatever order they read, claim and die, the fires of a schedule
-- whose body ran, or that were reported lost, ascend strictly from its last fire on: no fire is
-- taken twice, and none after a later one.
pub taken-Above :
    (name : String) (events : List Event) (w : World)
    → Above (last_fired name w.fires) (taken name (run events w).0)
unfolding run taken
taken-Above name [] w = tt
taken-Above name (event ∷ events) w =
    let (report, w') = advance event w in
    let reports = (run events w').0 in
    let (moves, takes_it) = advance-Step name event w in
    let rest = taken-Above name events w' in
    elim (Bool-cases (takes name report)) [
      | inl t ↦
          rw (taken-reported name report reports, t) ((takes_it t).1, rw (takes_it t).0 at rest)
      | inr f ↦
          rw (taken-reported name report reports, f)
            (Above-Moves name w.fires w'.fires (taken name reports) moves rest)
    ]
