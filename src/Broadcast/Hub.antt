-- ===== src/Broadcast/Hub.antt =====
-- fieldpilot/broadcast/hub.py: Client and BroadcastHub.
pub mod Clients
pub mod Registry
pub mod Publishing
pub mod Delivery
unfoldable pub use Clients.*
unfoldable pub use Registry.*
unfoldable pub use Publishing.*
unfoldable pub use Delivery.*
