-- ===== src/Task.antt =====
-- The scheduled tasks of task/.
pub mod Calendar
pub mod Expression
pub mod Cron
mod Tests
