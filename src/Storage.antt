-- ===== src/Storage.antt =====
-- fieldpilot/storage: the record store that the services keep their tables in.
pub mod Table
pub mod Lookup
pub mod Query
pub mod Bulk
pub mod Every
pub mod Size
pub mod Subset
pub mod Rows
