-- ===== src/Storage/Vfs/Conformance.antt =====
-- What the blob store relies on, for the file system in memory.
use roam.Prelude.{
  ℕ, false, none, some, List, length, replicate, take, drop, ◌≡◌, refl, ◌+◌, ◌≤◌, arith, ◌∙◌,
  Option-cases, inl, inr,
}
use roam.Prelude.Outcomes.{err, ok}
use roam.Prelude.Keyed.{find, put, delete, find-put, find-delete, texts_key, text_key}
use roam.Prelude.Splices.{splice}
use roam.Storage.Vfs.{PathBuf, IoError, not_found}
use roam.Storage.Vfs.Contract.{
  Files, SameElsewhere, IsWritten, IsMoved, IsKept, IsRemoved, Promises,
}
use roam.Storage.Vfs.Memory.{
  MemState, read, read_range, resize_up, write_range, rename, remove_file, file_len, exists, mem_fs,
}

abbrev pub files : MemState → Files
files d path = find path d.files

put-elsewhere :
    (p : PathBuf) (bytes : List ℕ) (d : MemState)
    → SameElsewhere p (files d) (λ other. find other (put p bytes d.files))
put-elsewhere p bytes d other ne = find-put other p bytes d.files ∙ rw ne refl

read_ok :
    (p : PathBuf) (d : MemState) {bytes : List ℕ} → read p d ≡ ok bytes → files d p ≡ some bytes
read_ok p d h = elim (Option-cases (find p d.files)) [
  | inl e ↦ ground (arith, e)
  | inr (b, e) ↦ ground (arith, e)
]

read_absent : (p : PathBuf) (d : MemState) → read p d ≡ err not_found → files d p ≡ none
read_absent p d h = elim (Option-cases (find p d.files)) [
  | inl e ↦ e
  | inr (b, e) ↦ ground (arith, e)
]

exists_file : (p : PathBuf) (d : MemState) → exists p d ≡ false → files d p ≡ none
exists_file p d h = elim (Option-cases (find p d.files)) [
  | inl e ↦ e
  | inr (b, e) ↦ ground (arith, e)
]

file_len_ok :
    (p : PathBuf) (d : MemState) {len : ℕ}
    → file_len p d ≡ ok len
    → (bytes : List ℕ) × (files d p ≡ some bytes) × (length bytes ≡ len)
file_len_ok p d h = elim (Option-cases (find p d.files)) [
  | inl e ↦ absurd (ground (arith, e))
  | inr (b, e) ↦ (b, e, ground (arith, e))
]

read_range_ok :
    (p : PathBuf) (offset len : ℕ) (d : MemState) {part : List ℕ}
    → read_range p offset len d ≡ ok part
    → (bytes : List ℕ) × (files d p ≡ some bytes) × (part ≡ take len (drop offset bytes))
read_range_ok p offset len d h = elim (Option-cases (find p d.files)) [
  | inl e ↦ absurd (ground (arith, e))
  | inr (b, e) ↦ (b, e, ground (arith, e))
]

write_range_ok :
    (p : PathBuf) (offset : ℕ) (bytes : List ℕ) (d : MemState) {file : List ℕ}
    → files d p ≡ some file
    → offset + length bytes ≤ length file
    → IsWritten p (splice offset bytes file) (files d) (files ((write_range p offset bytes d).1))
write_range_ok p offset bytes d {file} at_p fits other =
    let same : resize_up (offset + length bytes) file ≡ file = ground (arith, fits) in
    rw (at_p, write_range) (rw same (find-put other p (splice offset bytes file) d.files))

write_range_elsewhere :
    (p : PathBuf) (offset : ℕ) (bytes : List ℕ) (d : MemState)
    → SameElsewhere p (files d) (files ((write_range p offset bytes d).1))
write_range_elsewhere p offset bytes d other ne = elim (Option-cases (find p d.files)) [
  | inl e ↦ rw (e, write_range) refl
  | inr (file, e) ↦
      rw (e, write_range)
        (put-elsewhere p (splice offset bytes (resize_up (offset + length bytes) file)) d other ne)
]

rename_ok :
    (from to : PathBuf) (d : MemState)
    → (rename from to d).0 ≡ ok tt
    → (bytes : List ℕ) × (files d from ≡ some bytes)
      × IsMoved from to bytes (files d) (files ((rename from to d).1))
rename_ok from to d h = elim (Option-cases (find from d.files)) [
  | inl e ↦ absurd (ground (arith, e))
  | inr (bytes, e) ↦ (
    bytes,
    e,
    λ other.
        rw (e, rename)
          (find-put other to bytes (delete from d.files)
            ∙ rw (find-delete other from d.files) refl),
  )
]

rename_err :
    (from to : PathBuf) (d : MemState) {e : IoError}
    → (rename from to d).0 ≡ err e
    → IsKept (files d) (files ((rename from to d).1))
rename_err from to d h other = elim (Option-cases (find from d.files)) [
  | inl e ↦ rw (e, rename) refl
  | inr (bytes, e) ↦ absurd (ground (arith, e))
]

remove_ok :
    (p : PathBuf) (d : MemState)
    → (remove_file p d).0 ≡ ok tt
    → IsRemoved p (files d) (files ((remove_file p d).1))
remove_ok p d h other = elim (Option-cases (find p d.files)) [
  | inl e ↦ absurd (ground (arith, e))
  | inr (bytes, e) ↦ rw (e, remove_file) (find-delete other p d.files)
]

remove_err :
    (p : PathBuf) (d : MemState) {e : IoError}
    → (remove_file p d).0 ≡ err e
    → IsKept (files d) (files ((remove_file p d).1))
remove_err p d h other = elim (Option-cases (find p d.files)) [
  | inl e ↦ rw (e, remove_file) refl
  | inr (bytes, e) ↦ absurd (ground (arith, e))
]

-- The file system in memory has what the blob store relies on: its reads give what its files hold,
-- its writes change only the file that they name, and a rename or a removal that fails leaves all
-- files as they were.
pub mem_fs-Promises : Promises mem_fs files
mem_fs-Promises = record {
  read_ok = read_ok;
  read_absent = read_absent;
  exists_file = exists_file;
  file_len_ok = file_len_ok;
  read_range_ok = read_range_ok;
  write_ok = λ p bytes d h other. find-put other p bytes d.files;
  write_elsewhere = put-elsewhere;
  create_sized_ok = λ p len d h other. find-put other p (replicate len 0) d.files;
  create_sized_elsewhere = λ p len d. put-elsewhere p (replicate len 0) d;
  write_range_ok = λ p offset bytes d at_p fits h. write_range_ok p offset bytes d at_p fits;
  write_range_elsewhere = write_range_elsewhere;
  create_dir_all_kept = λ p d other. refl;
  rename_ok = rename_ok;
  rename_err = rename_err;
  remove_ok = remove_ok;
  remove_err = remove_err;
}
