-- ===== src/Models.antt =====
-- fieldpilot/models_registry: the checkpoints of the detectors, and their verified download.
pub mod Options
pub mod Files
pub mod Registry
pub mod Integrity
pub mod Loading
mod Tests
