-- ===== src/Safety.antt =====
-- fieldpilot/safety: whether workers notice the hazards around them.
pub mod Attention
pub mod Engagement
mod Tests
