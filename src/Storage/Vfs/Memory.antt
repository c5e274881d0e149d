-- ===== src/Storage/Vfs/Memory.antt =====
-- `MemFs` of crates/roam-storage/src/vfs.rs, the reference that other backends have to match.
use roam.Prelude.{
  ℕ, ◌+◌, ◌-◌, Bool, true, false, ◌||◌, Option, none, some, List, [], ◌∷◌, ◌++◌, map, length, take,
  drop, replicate, ltb, if◌then◌else◌,
}
use roam.Prelude.Outcomes.{err, ok, ok_or}
use roam.Prelude.Keyed.{find, put, delete, texts_key}
use roam.Prelude.Trim.{same_text}
use roam.Prelude.Splices.{splice}
use roam.Storage.Vfs.{PathBuf, not_found, IoResult, Change, VaultFs}

-- The two sets are maps to the unit.
pub record MemState : Type 0 where
  pub files : List (PathBuf × List ℕ)
  pub dirs : List (PathBuf × Unit {0})
  pub owner_only : List (PathBuf × Unit {0})

abbrev pub is_some {ℓ} : {A : Type ℓ} → Option A → Bool
is_some none = false
is_some (some a) = true

abbrev pub read : PathBuf → MemState → IoResult (List ℕ)
read path d = ok_or (find path d.files) not_found

-- `start.saturating_add(len).min(bytes.len())`: a length is far below the bound of `usize`.
abbrev pub range_of : (offset len : ℕ) (bytes : List ℕ) → List ℕ
range_of offset len bytes = take len (drop offset bytes)

abbrev pub read_range : PathBuf → (offset len : ℕ) → MemState → IoResult (List ℕ)
read_range path offset len d = elim (find path d.files) [
  | none ↦ err not_found
  | some bytes ↦ ok (range_of offset len bytes)
]

abbrev pub write : PathBuf → (bytes : List ℕ) → Change MemState
write path bytes d = (ok tt, record d { files = put path bytes d.files })

abbrev pub or_empty : Option (List ℕ) → List ℕ
or_empty none = []
or_empty (some bytes) = bytes

abbrev pub append : PathBuf → (bytes : List ℕ) → Change MemState
append path bytes d =
    (ok tt, record d { files = put path (or_empty (find path d.files) ++ bytes) d.files })

abbrev pub append_sync : PathBuf → (bytes : List ℕ) → Change MemState
append_sync path bytes d = append path bytes d

abbrev pub create_sized : PathBuf → (len : ℕ) → Change MemState
create_sized path len d = (ok tt, record d { files = put path (replicate len 0) d.files })

-- `file.resize(start + bytes.len(), 0)`, if that is longer.
abbrev pub resize_up : ℕ → List ℕ → List ℕ
resize_up len file = if ltb (length file) len then file ++ replicate (len - length file) 0 else file

abbrev pub write_range : PathBuf → (offset : ℕ) → (bytes : List ℕ) → Change MemState
write_range path offset bytes d = elim (find path d.files) [
  | none ↦ (err not_found, d)
  | some file ↦ (
    ok tt,
    record d {
      files = put path (splice offset bytes (resize_up (offset + length bytes) file)) d.files;
    },
  )
]

-- Each prefix of the path.
abbrev pub add_dirs :
    (current rest : PathBuf) → List (PathBuf × Unit {0}) → List (PathBuf × Unit {0})
add_dirs current [] dirs = dirs
add_dirs current (part ∷ rest) dirs =
    let here = current ++ part ∷ [] in add_dirs here rest (put here tt dirs)

abbrev pub create_dir_all : PathBuf → Change MemState
create_dir_all path d = (ok tt, record d { dirs = add_dirs [] path d.dirs })

abbrev pub rename_owner :
    (from to : PathBuf) → List (PathBuf × Unit {0}) → List (PathBuf × Unit {0})
rename_owner from to owners =
    if is_some (find from owners) then put to tt (delete from owners) else owners

abbrev pub rename : (from to : PathBuf) → Change MemState
rename from to d = elim (find from d.files) [
  | none ↦ (err not_found, d)
  | some bytes ↦ (
    ok tt,
    record d {
      files = put to bytes (delete from d.files);
      owner_only = rename_owner from to d.owner_only;
    },
  )
]

abbrev pub remove_file : PathBuf → Change MemState
remove_file path d = elim (find path d.files) [
  | none ↦ (err not_found, d)
  | some bytes ↦ (ok tt, record d { files = delete path d.files })
]

-- The first component after the prefix, if there is one.
abbrev pub child_of : (path existing : PathBuf) → Option (List ℕ)
child_of [] [] = none
child_of [] (first ∷ rest) = some first
child_of (part ∷ path) [] = none
child_of (part ∷ path) (first ∷ rest) =
    let below = child_of path rest in if same_text part first then below else none

abbrev pub children :
    {A : Type 0}
    → PathBuf
    → List (PathBuf × A)
    → List (PathBuf × Unit {0})
    → List (PathBuf × Unit {0})
children path [] out = out
children path ((existing, a) ∷ rest) out =
    children path rest
      (elim (child_of path existing) [ none ↦ out | some first ↦ put (path ++ first ∷ []) tt out ])

abbrev pub read_dir : PathBuf → MemState → IoResult (List PathBuf)
read_dir path d =
    if is_some (find path d.dirs)
    then ok (map (λ entry. entry.0) (children path d.dirs (children path d.files [])))
    else err not_found

abbrev pub file_len : PathBuf → MemState → IoResult ℕ
file_len path d = elim (find path d.files) [ none ↦ err not_found | some b ↦ ok (length b) ]

abbrev pub exists : PathBuf → MemState → Bool
exists path d = is_some (find path d.files) || is_some (find path d.dirs)

abbrev pub is_dir : PathBuf → MemState → Bool
is_dir path d = is_some (find path d.dirs)

abbrev pub set_owner_only : PathBuf → Change MemState
set_owner_only path d =
    if is_some (find path d.files)
    then (ok tt, record d { owner_only = put path tt d.owner_only })
    else (err not_found, d)

abbrev pub mem_fs : VaultFs MemState
mem_fs = record {
  read = read;
  read_range = read_range;
  write = write;
  append = append;
  append_sync = append_sync;
  create_sized = create_sized;
  write_range = write_range;
  create_dir_all = create_dir_all;
  rename = rename;
  remove_file = remove_file;
  read_dir = read_dir;
  file_len = file_len;
  exists = exists;
  is_dir = is_dir;
  set_owner_only = set_owner_only;
}
