-- ===== src/Rules.antt =====
-- fieldpilot/rules: which events ask for which actions.
pub mod Operators
pub mod Engine
pub mod Due
pub mod Order
pub mod Choice
pub mod Firing
pub mod Management
pub mod Cooldown
mod Tests
