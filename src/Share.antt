-- ===== src/Share.antt =====
-- One-shot sharing: crates/roam-share and the receiving half of crates/roam-share-iroh.
pub mod Name
pub mod Payload
pub mod Receive
pub mod Session
pub mod Sender
mod Tests
