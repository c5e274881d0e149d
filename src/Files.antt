-- ===== src/Files.antt =====
-- Vault files: crates/roam-files.
pub mod Path
pub mod Entry
