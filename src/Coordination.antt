-- ===== src/Coordination.antt =====
-- The process-local adapters of coordination/memory.py, and `LeaderElection` of
-- coordination/leaderelection.py over one of them.
pub mod Lock
pub mod Schedule
pub mod Leader
pub mod Election
mod Tests
