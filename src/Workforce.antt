-- ===== src/Workforce.antt =====
-- fieldpilot/workforce: who is in which zone, the messages of workers and managers, and the questions.
pub mod Occupancy
pub mod Presence
pub mod CheckIn
mod Tests
mod TalkTests
pub mod Messages
pub mod Reading
pub mod Questions
pub mod Review
pub mod Answers
