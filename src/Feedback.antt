-- ===== src/Feedback.antt =====
-- fieldpilot/feedback: the decisions of supervisors on alerts.
pub mod Service
pub mod Claims
mod Tests
