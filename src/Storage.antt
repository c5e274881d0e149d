-- ===== src/Storage.antt =====
-- The storage of a vault: crates/roam-storage. Blobs, file systems, checkpoints and wrapped keys.
pub mod Vfs
pub mod Blob
pub mod Tests
pub mod Checkpoint
pub mod EpochCrypto
pub mod Keywrap
