-- ===== src/Triggers.antt =====
-- fieldpilot/triggers: the hot-path cache, and the engine that turns detections into alerts.
pub mod Cache
pub mod Alert
pub mod World
pub mod Engine
pub mod Operator
pub mod Sweep
pub mod Tracked
pub mod Detection
pub mod Merging
pub mod Burst
pub mod Invariant
pub mod Runs
pub mod Scan
pub mod Sweeping
pub mod Suppression
mod Tests
