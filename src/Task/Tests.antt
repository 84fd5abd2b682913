-- ===== src/Task/Tests.antt =====
-- Runs of the cron ticks, and their theorems at concrete inputs.
use grelmicro.Prelude.{◌≡◌, refl, false, some, List, [], ◌∷◌, string_eq}
use grelmicro.Dict.{lookup, insert, remove}
use grelmicro.Coordination.Schedule.{claim, last_fired, Above}
use grelmicro.Task.Cron.{
  error, skipped, returned, raised, World, Event, read, claim_fire, advance, run,
}
use grelmicro.Task.Cron.Once.{taken, taken-Above}

abbrev world : World
world = record { fires = ("job", 60) ∷ []; workers = [] }

-- Two workers read the same last fire; the first to claim runs the body.
abbrev race : List Event
race =
    read "a" "job" (some 30) false 121 120
    ∷ read "b" "job" (some 30) false 122 120
    ∷ claim_fire "b" raised
    ∷ claim_fire "a" returned
    ∷ []

race_reports :
    (run race world).0
    ≡ record { name = "job"; due = 120; outcome = some error }
      ∷ record { name = "job"; due = 120; outcome = some skipped }
      ∷ []
unfolding run advance lookup insert remove claim last_fired
race_reports = refl

taken-Above_example : Above (last_fired "job" world.fires) (taken "job" (run race world).0)
taken-Above_example = taken-Above "job" race world
