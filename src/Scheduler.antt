-- ===== src/Scheduler.antt =====
-- internal/scheduler.
pub mod Drift
pub mod Evaluate
pub mod Gauge
pub mod Group
pub mod Limits
pub mod Recheck
pub mod Reload
pub mod SendQueue
mod PassTests
mod Tests
