-- ===== src/Auth.antt =====
-- fieldpilot/auth: users, passwords and sessions.
pub mod Validation
pub mod Accounts
pub mod Service
pub mod Sessions
pub mod Revocation
pub mod Login
mod Tests
pub mod Expiry
pub mod Uniqueness
