-- ===== src/Alerts.antt =====
-- fieldpilot/alerts: the alerts on the edge device itself.
pub mod Dispatcher
pub mod Spacing
mod Tests
