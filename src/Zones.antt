-- ===== src/Zones.antt =====
-- fieldpilot/zones: the zones of a site, in a table and in a cache.
pub mod Service
pub mod Coherence
mod Tests
