-- ===== src/Alert.antt =====
-- internal/alert: the alert instances of one rule against one source.
pub mod Data
pub mod Labels
pub mod Annotate
pub mod Fingerprint
pub mod State
mod Tests
