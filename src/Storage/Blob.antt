-- ===== src/Storage/Blob.antt =====
-- `BlobStore` of crates/roam-storage/src/blob.rs, over any file system. The hash function blake3
-- is a parameter, which yields the text of the digest.
pub mod Paths
pub mod Finished
pub mod Incoming
pub mod Memory
use roam.Prelude.{
  ℕ, ◌+◌, ◌^◌, ◌-◌, Bool, true, false, not, ◌&&◌, ◌||◌, Option, none, some, List, [], ◌∷◌, ◌++◌,
  map, length, ltb, leb, ◌==◌, if◌then◌else◌,
}
use roam.Prelude.Bytes.{codes}
use roam.Prelude.Trim.{same_text}
use roam.Prelude.Outcomes.{Outcome, err, ok}
use roam.Storage.Vfs.{PathBuf, IoError, not_found, other, IoResult, VaultFs}

abbrev pub hash_hex_len : ℕ
hash_hex_len = 64

-- `is_valid_hash`, whose test of the bytes is `all_hex`.
abbrev pub is_hex : ℕ → Bool
is_hex b = (leb b'0' b && leb b b'9') || (leb b'a' b && leb b b'f')

abbrev pub all_hex : List ℕ → Bool
all_hex [] = true
all_hex (b ∷ bs) = is_hex b && all_hex bs

abbrev pub is_valid_hash : List ℕ → Bool
is_valid_hash hash = length hash == hash_hex_len && all_hex hash

-- The errors: `StorageError::Blob` with each of its messages, and `StorageError::Io`.
pub data BlobError : Type 0 where
  corrupt invalid_hash offset_overflow over_length disagrees : BlobError
  io : IoError → BlobError

abbrev pub Result : Type 0 → Type 0
Result A = Outcome BlobError A

abbrev pub of_io : {A : Type 0} → IoResult A → Result A
of_io (err e) = err (io e)
of_io (ok a) = ok a

abbrev pub u64_end : ℕ
u64_end = 2 ^ 64

pub record BlobStore (Disk : Type 0) : Type 0 where
  pub root : PathBuf
  pub fs : VaultFs Disk

-- `BlobStore::open_with_fs`
abbrev pub open_with_fs :
    {Disk : Type 0} → PathBuf → VaultFs Disk → Disk → Result (BlobStore Disk) × Disk
open_with_fs assets_dir fs d =
    let made = fs.create_dir_all assets_dir d in
    elim made.0 [
      | err e ↦ (err (io e), made.1)
      | ok done ↦ (ok (record { root = assets_dir; fs = fs }), made.1)
    ]

-- What an absent file is to the caller, or the other error.
abbrev pub if_found : {A : Type 0} → A → IoError → Result A
if_found absent not_found = ok absent
if_found absent other = err (io other)

module _ {Disk : Type 0} (store : BlobStore Disk) where
  -- `self.root.join(hash)`
  abbrev pub final_path : List ℕ → PathBuf
  final_path hash = store.root ++ hash ∷ []

  abbrev pub temp_path : List ℕ → PathBuf
  temp_path hash = store.root ++ (hash ++ codes ".tmp") ∷ []

  abbrev pub incoming_dir : PathBuf
  incoming_dir = store.root ++ codes "incoming" ∷ []

  abbrev pub part_path : List ℕ → PathBuf
  part_path hash = store.root ++ codes "incoming" ∷ (hash ++ codes ".part") ∷ []

  abbrev pub blob_path : List ℕ → Result PathBuf
  blob_path hash = if is_valid_hash hash then ok (final_path hash) else err invalid_hash

  abbrev pub has : List ℕ → Disk → Bool
  has hash d = if is_valid_hash hash then store.fs.exists (final_path hash) d else false

  abbrev pub tolerate : IoResult (Unit {0}) → Result (Unit {0})
  tolerate (ok done) = ok done
  tolerate (err e) = if_found tt e

  -- `remove`, and `discard_incoming` of the partial file.
  abbrev pub remove : List ℕ → Disk → Result (Unit {0}) × Disk
  remove hash d =
      if is_valid_hash hash
      then (let removed = store.fs.remove_file (final_path hash) d in
          (tolerate removed.0, removed.1))
      else (err invalid_hash, d)

  abbrev pub discard_incoming : List ℕ → Disk → Result (Unit {0}) × Disk
  discard_incoming hash d =
      if is_valid_hash hash
      then (let removed = store.fs.remove_file (part_path hash) d in
          (tolerate removed.0, removed.1))
      else (err invalid_hash, d)

  -- `entry.file_name()` is the last component.
  abbrev pub file_name : PathBuf → Option (List ℕ)
  file_name [] = none
  file_name (part ∷ []) = some part
  file_name (part ∷ next ∷ rest) = file_name (next ∷ rest)

  abbrev pub hashes_of : List PathBuf → List (List ℕ)
  hashes_of [] = []
  hashes_of (entry ∷ entries) =
      let rest = hashes_of entries in
      elim (file_name entry) [
        | none ↦ rest
        | some name ↦ if is_valid_hash name then name ∷ rest else rest
      ]

  abbrev pub list : Disk → Result (List (List ℕ))
  list d = elim (store.fs.read_dir store.root d) [
    | err e ↦ err (io e)
    | ok entries ↦ ok (hashes_of entries)
  ]

  abbrev pub size : List ℕ → Disk → Result (Option ℕ)
  size hash d =
      if is_valid_hash hash
      then (elim (store.fs.file_len (final_path hash) d) [
        | err e ↦ if_found none e
        | ok len ↦ ok (some len)
      ])
      else err invalid_hash

  abbrev pub read_range : List ℕ → (offset len : ℕ) → Disk → Result (List ℕ)
  read_range hash offset len d =
      if is_valid_hash hash
      then of_io (store.fs.read_range (final_path hash) offset len d)
      else err invalid_hash

  -- `write_incoming_chunk` from the existing or new partial file on.
  abbrev pub write_part : List ℕ → (offset : ℕ) → List ℕ → Disk → Result (Unit {0}) × Disk
  write_part hash offset bytes d =
      let written = store.fs.write_range (part_path hash) offset bytes d in
      (of_io written.0, written.1)

  abbrev pub size_part : List ℕ → (offset total_len : ℕ) → List ℕ → Disk → Result (Unit {0}) × Disk
  size_part hash offset total_len bytes d =
      let part = part_path hash in
      if store.fs.exists part d
      then (elim (store.fs.file_len part d) [
        | err e ↦ (err (io e), d)
        | ok pinned ↦
            if pinned == total_len then write_part hash offset bytes d else (err disagrees, d)
      ])
      else (let created = store.fs.create_sized part total_len d in
          elim created.0 [
            | err e ↦ (err (io e), created.1)
            | ok done ↦ write_part hash offset bytes created.1
          ])

  unfoldable pub write_incoming_chunk :
      List ℕ → (offset total_len : ℕ) → List ℕ → Disk → Result (Unit {0}) × Disk
  write_incoming_chunk hash offset total_len bytes d =
      let end = offset + length bytes in
      let made = store.fs.create_dir_all incoming_dir d in
      if not (is_valid_hash hash)
      then (err invalid_hash, d)
      else if leb u64_end end
      then (err offset_overflow, d)
      else if ltb total_len end
      then (err over_length, d)
      else elim made.0 [
        | err e ↦ (err (io e), made.1)
        | ok done ↦ size_part hash offset total_len bytes made.1
      ]

  abbrev pub publish : (temp path : PathBuf) → List ℕ → Disk → Result (List ℕ) × Disk
  publish temp path hash d =
      let renamed = store.fs.rename temp path d in
      elim renamed.0 [
        | ok done ↦ (ok hash, renamed.1)
        | err e ↦ (err (io e), (store.fs.remove_file temp renamed.1).1)
      ]

  -- The fall-back of `finalize_incoming` when the rename fails: a copy.
  abbrev pub copy_over : List ℕ → List ℕ → Disk → Result Bool × Disk
  copy_over hash bytes d =
      let written = store.fs.write (final_path hash) bytes d in
      let removed = store.fs.remove_file (part_path hash) written.1 in
      elim written.0 [ err e ↦ (err (io e), removed.1) | ok done ↦ (ok true, removed.1) ]

  abbrev pub move_part : List ℕ → List ℕ → Disk → Result Bool × Disk
  move_part hash bytes d =
      let renamed = store.fs.rename (part_path hash) (final_path hash) d in
      elim renamed.0 [ ok done ↦ (ok true, renamed.1) | err e ↦ copy_over hash bytes renamed.1 ]

  module _ (blake3 : List ℕ → List ℕ) where
    -- `Self::hash`
    abbrev pub hash_of : List ℕ → List ℕ
    hash_of bytes = blake3 bytes

    unfoldable pub put : List ℕ → Disk → Result (List ℕ) × Disk
    put bytes d =
        let hash = hash_of bytes in
        let written = store.fs.write (temp_path hash) bytes d in
        if store.fs.exists (final_path hash) d then (ok hash, d) else elim written.0 [
          | err e ↦ (err (io e), written.1)
          | ok done ↦ publish (temp_path hash) (final_path hash) hash written.1
        ]

    abbrev pub checked : List ℕ → List ℕ → Result (Option (List ℕ))
    checked hash bytes = if same_text (hash_of bytes) hash then ok (some bytes) else err corrupt

    unfoldable pub get : List ℕ → Disk → Result (Option (List ℕ))
    get hash d =
        if is_valid_hash hash
        then (elim (store.fs.read (final_path hash) d) [
          | err e ↦ if_found none e
          | ok bytes ↦ checked hash bytes
        ])
        else err invalid_hash

    unfoldable pub finalize_incoming : List ℕ → Disk → Result Bool × Disk
    finalize_incoming hash d =
        if is_valid_hash hash
        then (elim (store.fs.read (part_path hash) d) [
          | err e ↦ (if_found false e, d)
          | ok bytes ↦
              if same_text (hash_of bytes) hash
              then move_part hash bytes d
              else (ok false, (store.fs.remove_file (part_path hash) d).1)
        ])
        else (err invalid_hash, d)
