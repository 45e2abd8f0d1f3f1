-- ===== src/Reasoning.antt =====
-- fieldpilot/reasoning: retrieval of the specification documents of a site.
pub mod Rag
pub mod Scope
pub mod Sample
