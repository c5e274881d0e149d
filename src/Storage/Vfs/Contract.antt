-- ===== src/Storage/Vfs/Contract.antt =====
-- What the blob store relies on in a `VaultFs` of crates/roam-storage/src/vfs.rs, whose calls may
-- fail for reasons of their own: then a rename or a removal has changed nothing, and a write has
-- changed at most the file that it names. What the calls of `MemFs` do where nothing fails is in
-- Storage/Vfs/Reference.antt.
use roam.Prelude.{
  ℕ, false, Option, none, some, List, length, replicate, take, drop, if◌then◌else◌, ◌≡◌, ◌∙◌, refl,
  inl, inr, ◌+◌, ◌≤◌,
}
use roam.Prelude.Outcomes.{err, ok, Outcome-cases}
use roam.Prelude.Keyed.{same_list, text_key}
use roam.Prelude.Splices.{splice}
use roam.Storage.Vfs.{PathBuf, IoError, not_found, VaultFs}

-- The files of a disk.
abbrev pub Files : Type 0
Files = PathBuf → Option (List ℕ)

abbrev pub SameElsewhere : PathBuf → Files → Files → Type 0
SameElsewhere named old new = (path : PathBuf) → same_list path named ≡ false → new path ≡ old path

abbrev pub IsWritten : PathBuf → List ℕ → Files → Files → Type 0
IsWritten named bytes old new =
    (path : PathBuf) → new path ≡ (if same_list path named then some bytes else old path)

abbrev pub IsMoved : (from to : PathBuf) → List ℕ → Files → Files → Type 0
IsMoved from to bytes old new =
    (path : PathBuf)
    → new path
      ≡ (if same_list path to then some bytes else if same_list path from then none else old path)

abbrev pub IsKept : Files → Files → Type 0
IsKept old new = (path : PathBuf) → new path ≡ old path

abbrev pub IsRemoved : PathBuf → Files → Files → Type 0
IsRemoved named old new =
    (path : PathBuf) → new path ≡ (if same_list path named then none else old path)

pub record Promises {Disk : Type 0} (fs : VaultFs Disk) (files : Disk → Files) : Type 0 where
  pub read_ok :
      (p : PathBuf) (d : Disk) {bytes : List ℕ} → fs.read p d ≡ ok bytes → files d p ≡ some bytes
  pub read_absent : (p : PathBuf) (d : Disk) → fs.read p d ≡ err not_found → files d p ≡ none
  pub exists_file : (p : PathBuf) (d : Disk) → fs.exists p d ≡ false → files d p ≡ none
  pub file_len_ok :
      (p : PathBuf) (d : Disk) {len : ℕ}
      → fs.file_len p d ≡ ok len
      → (bytes : List ℕ) × (files d p ≡ some bytes) × (length bytes ≡ len)
  pub read_range_ok :
      (p : PathBuf) (offset len : ℕ) (d : Disk) {part : List ℕ}
      → fs.read_range p offset len d ≡ ok part
      → (bytes : List ℕ) × (files d p ≡ some bytes) × (part ≡ take len (drop offset bytes))
  pub write_ok :
      (p : PathBuf) (bytes : List ℕ) (d : Disk)
      → (fs.write p bytes d).0 ≡ ok tt
      → IsWritten p bytes (files d) (files ((fs.write p bytes d).1))
  pub write_elsewhere :
      (p : PathBuf) (bytes : List ℕ) (d : Disk)
      → SameElsewhere p (files d) (files ((fs.write p bytes d).1))
  pub create_sized_ok :
      (p : PathBuf) (len : ℕ) (d : Disk)
      → (fs.create_sized p len d).0 ≡ ok tt
      → IsWritten p (replicate len 0) (files d) (files ((fs.create_sized p len d).1))
  pub create_sized_elsewhere :
      (p : PathBuf) (len : ℕ) (d : Disk)
      → SameElsewhere p (files d) (files ((fs.create_sized p len d).1))
  pub write_range_ok :
      (p : PathBuf) (offset : ℕ) (bytes : List ℕ) (d : Disk) {file : List ℕ}
      → files d p ≡ some file
      → offset + length bytes ≤ length file
      → (fs.write_range p offset bytes d).0 ≡ ok tt
      → IsWritten p
          (splice offset bytes file)
          (files d)
          (files ((fs.write_range p offset bytes d).1))
  pub write_range_elsewhere :
      (p : PathBuf) (offset : ℕ) (bytes : List ℕ) (d : Disk)
      → SameElsewhere p (files d) (files ((fs.write_range p offset bytes d).1))
  pub create_dir_all_kept :
      (p : PathBuf) (d : Disk) → IsKept (files d) (files ((fs.create_dir_all p d).1))
  pub rename_ok :
      (from to : PathBuf) (d : Disk)
      → (fs.rename from to d).0 ≡ ok tt
      → (bytes : List ℕ) × (files d from ≡ some bytes)
        × IsMoved from to bytes (files d) (files ((fs.rename from to d).1))
  pub rename_err :
      (from to : PathBuf) (d : Disk) {e : IoError}
      → (fs.rename from to d).0 ≡ err e
      → IsKept (files d) (files ((fs.rename from to d).1))
  pub remove_ok :
      (p : PathBuf) (d : Disk)
      → (fs.remove_file p d).0 ≡ ok tt
      → IsRemoved p (files d) (files ((fs.remove_file p d).1))
  pub remove_err :
      (p : PathBuf) (d : Disk) {e : IoError}
      → (fs.remove_file p d).0 ≡ err e
      → IsKept (files d) (files ((fs.remove_file p d).1))

module _ {Disk : Type 0} (fs : VaultFs Disk) (files : Disk → Files)
    (promises : Promises fs files) where
  pub remove_elsewhere :
      (p : PathBuf) (d : Disk) → SameElsewhere p (files d) (files ((fs.remove_file p d).1))
  remove_elsewhere p d path ne = elim (Outcome-cases ((fs.remove_file p d).0)) [
    | inl (done, e) ↦ promises.remove_ok p d e path ∙ rw ne refl
    | inr (failure, e) ↦ promises.remove_err p d e path
  ]
