-- ===== src/Offline.antt =====
-- fieldpilot/offline: the queue of events that wait for the central server, and its flusher.
pub mod Outbox
pub mod Forwarder
pub mod Delivery
pub mod Queue
pub mod Purge
mod Tests
