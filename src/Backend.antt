-- ===== src/Backend.antt =====
-- The client of the sealed backend: crates/roam-backend-client.
pub mod Entries
