-- ===== src/Clock.antt =====
-- The clock of clock/ as the models read it. A reading is a whole number of microseconds, and so is
-- a duration; a float of seconds in the source is one of these numbers divided by `second`. An
-- operation takes as an argument each reading that the source makes.
use grelmicro.Prelude.{ℕ}

abbrev pub second : ℕ
second = 1000000

abbrev pub day : ℕ
day = 86400000000
