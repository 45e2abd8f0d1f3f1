-- ===== src/Platform/Actions.antt =====
-- fieldpilot/backend/service.py: what rules see of an event, and what an action does.
pub mod Context
pub mod Execution
unfoldable pub use Context.*
unfoldable pub use Execution.*
