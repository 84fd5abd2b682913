-- ===== src/Coordination/Election/Overlap.antt =====
-- What a worker of coordination/leaderelection.py still believes when it has stopped: `_release` does
-- not touch its state.
use grelmicro.Prelude.{ℕ, String, List, [], ◌∷◌, string_eq}
use grelmicro.Coordination.Leader
use grelmicro.Coordination.Leader.{LeaderRecord, Records}
use grelmicro.Coordination.Election.System.{Event, calls, arrives, stops}

-- The first worker leads and stops; then the second one asks, and gets its answer.
abbrev pub handover : String → String → ℕ → ℕ → ℕ → ℕ → List (ℕ × Event)
handover a b led stopped asked told =
    (led, calls a)
    ∷ (led, arrives a)
    ∷ (stopped, stops a)
    ∷ (asked, calls b)
    ∷ (told, arrives b)
    ∷ []
