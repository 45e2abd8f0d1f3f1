-- ===== src/Events.antt =====
-- fieldpilot/events: the values that payloads hold, the event schema, the bridge from hazards, and the bus.
pub mod Value
pub mod Schema
pub mod Bus
pub mod Bridge
pub mod Collapsing
pub mod Handing
mod Tests
mod HazardTests
