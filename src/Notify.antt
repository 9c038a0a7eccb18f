-- ===== src/Notify.antt =====
-- internal/notify.
pub mod Cadence
pub mod Client
pub mod Fanout
pub mod Payload
mod Tests
