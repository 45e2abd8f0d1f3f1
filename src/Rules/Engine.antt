-- ===== src/Rules/Engine.antt =====
-- fieldpilot/rules/engine.py: the rules, their evaluation on an event, and their cooldowns. Times are
-- in milliseconds and the clock is read once per event.
pub mod Registry
pub mod Evaluation
unfoldable pub use Registry.*
unfoldable pub use Evaluation.*
