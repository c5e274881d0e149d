-- ===== src/Roster.antt =====
-- The signed roster: crates/roam-storage/src/roster.rs.
pub mod Entry
pub mod Canonical
pub mod RoleName
pub mod Merge
mod Tests
