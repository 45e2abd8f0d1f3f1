-- ===== src/Notifications.antt =====
-- fieldpilot/notifications: the notifications that people receive, each channel's on its own.
pub mod Service
pub mod Attempts
pub mod Window
mod Tests
