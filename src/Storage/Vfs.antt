-- ===== src/Storage/Vfs.antt =====
-- The file-system seam of the storage: `VaultFs` of crates/roam-storage/src/vfs.rs.

pub mod Contract
pub mod Memory
pub mod Conformance
pub mod Reference
pub mod Listing
pub mod Refinement
use roam.Prelude.{ℕ, Bool, List}
use roam.Prelude.Outcomes.{Outcome}

-- `PathBuf`: its components, each the bytes of a name.
abbrev pub PathBuf : Type 0
PathBuf = List (List ℕ)

-- `io::ErrorKind`, as far as callers look at it.
pub data IoError : Type 0 where
  not_found other : IoError

abbrev pub IoResult : Type 0 → Type 0
IoResult A = Outcome IoError A

-- A call that changes what is stored, and may fail.
abbrev pub Change : Type 0 → Type 0
Change Disk = Disk → IoResult (Unit {0}) × Disk

-- The trait, over the state that its implementation keeps behind `&self`.
pub record VaultFs (Disk : Type 0) : Type 0 where
  pub read : PathBuf → Disk → IoResult (List ℕ)
  pub read_range : PathBuf → (offset len : ℕ) → Disk → IoResult (List ℕ)
  pub write : PathBuf → (bytes : List ℕ) → Change Disk
  pub append : PathBuf → (bytes : List ℕ) → Change Disk
  pub append_sync : PathBuf → (bytes : List ℕ) → Change Disk
  pub create_sized : PathBuf → (len : ℕ) → Change Disk
  pub write_range : PathBuf → (offset : ℕ) → (bytes : List ℕ) → Change Disk
  pub create_dir_all : PathBuf → Change Disk
  pub rename : (from to : PathBuf) → Change Disk
  pub remove_file : PathBuf → Change Disk
  pub read_dir : PathBuf → Disk → IoResult (List PathBuf)
  pub file_len : PathBuf → Disk → IoResult ℕ
  pub exists : PathBuf → Disk → Bool
  pub is_dir : PathBuf → Disk → Bool
  pub set_owner_only : PathBuf → Change Disk
