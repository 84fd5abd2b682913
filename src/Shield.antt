-- ===== src/Shield.antt =====
-- The retry budget and the timeout estimator of resilience/shield/.
pub mod Budget
pub mod Estimator
mod Tests
