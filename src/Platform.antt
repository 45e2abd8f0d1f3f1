-- ===== src/Platform.antt =====
-- fieldpilot/backend: the orchestrator, and the records that it files.
pub mod Records
pub mod Setup
pub mod Actions
pub mod Handling
pub mod Telling
pub mod Audiences
pub mod Gate
pub mod Extension
pub mod Escalation
pub mod Warning
mod Tests
