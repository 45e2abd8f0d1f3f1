-- ===== src/Auth/Service.antt =====
-- fieldpilot/auth/service.py: AuthService and the check of request headers. The clock is read once
-- per operation; the random values and identifiers that an operation draws are arguments; the hash
-- functions of hashlib, on hexadecimal texts, and `str.lower` are parameters.
pub mod State
pub mod Tokens
pub mod Registration
pub mod Authentication
unfoldable pub use State.*
unfoldable pub use Tokens.*
unfoldable pub use Registration.*
unfoldable pub use Authentication.*
