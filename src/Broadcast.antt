-- ===== src/Broadcast.antt =====
-- fieldpilot/broadcast: the sockets of dashboards and devices, and who receives what.
pub mod Hub
pub mod Routing
mod Tests
