-- ===== src/Sync.antt =====
-- The sync protocol: crates/roam-sync-core.
pub mod Frame
pub mod Chunks
pub mod Engine
pub mod Tests
