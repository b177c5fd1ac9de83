-- ===== src/Api.antt =====
-- The resources that the operator reads and writes.
pub mod Metal
pub mod Config
pub mod SyncStatus
