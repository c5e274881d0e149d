-- ===== src/Storage/Vfs/Reference.antt =====
-- The file system that `MemFs` of crates/roam-storage/src/vfs.rs is the reference for, as an
-- abstract one: which files there are with which bytes, which paths are directories, and which files
-- are the owner's only. The calls are described as the comments of `VaultFs` and the `conformance`
-- suite do, for every state and every argument.
use roam.Prelude.{
  ℕ, ◌+◌, ◌-◌, Bool, true, false, not, ◌&&◌, ◌||◌, Option, none, some, List, [], ◌∷◌, ◌++◌, length,
  replicate, take, drop, if◌then◌else◌, ◌≡◌, ◌≢◌, ◌↔◌, ◌⊎◌, Memᴰ,
}
use roam.Prelude.Outcomes.{err, ok}
use roam.Prelude.Keyed.{same_list, texts_key, text_key}
use roam.Prelude.Splices.{splice}
use roam.Storage.Vfs.{PathBuf, not_found, IoResult, VaultFs}
use roam.Storage.Vfs.Memory.{is_some, or_empty}

pub record View : Type 0 where
  pub files : PathBuf → Option (List ℕ)
  pub dirs : PathBuf → Bool
  pub owners : PathBuf → Bool

-- Two views of the same things.
abbrev pub Same : View → View → Type 0
Same new old =
    ((path : PathBuf) → new.files path ≡ old.files path)
    × ((path : PathBuf) → new.dirs path ≡ old.dirs path)
    × ((path : PathBuf) → new.owners path ≡ old.owners path)

abbrev pub with_file : PathBuf → List ℕ → View → View
with_file named bytes v = record v {
  files = λ path. if same_list path named then some bytes else v.files path;
}

abbrev pub without_file : PathBuf → View → View
without_file named v = record v {
  files = λ path. if same_list path named then none else v.files path;
}

abbrev pub moved : (from to : PathBuf) → List ℕ → View → View
moved from to bytes v = record {
  files = λ path.
      if same_list path to then some bytes else if same_list path from then none else v.files path;
  dirs = v.dirs;
  owners = λ path.
      if v.owners from
      then same_list path to || (not (same_list path from) && v.owners path)
      else v.owners path;
}

abbrev pub owned : PathBuf → View → View
owned named v = record v { owners = λ path. same_list path named || v.owners path }

-- The bytes of a file after a write at an offset, which may reach over its end.
abbrev pub patched : (offset : ℕ) (bytes file : List ℕ) → List ℕ
patched offset bytes file =
    splice offset bytes (file ++ replicate (offset + length bytes - length file) 0)

-- A path that leads on the way to another, or to that other itself.
abbrev pub LeadsTo : (path deeper : PathBuf) → Type 0
LeadsTo path deeper = (path ≢ []) × ((rest : PathBuf) × (path ++ rest ≡ deeper))

-- Something stands below a directory, in its entry of this name.
abbrev pub HasEntry : View → PathBuf → (name : List ℕ) → Type 0
HasEntry v path name =
    (rest : PathBuf) × ((is_some (v.files (path ++ name ∷ rest)) ≡ true)
      ⊎ (v.dirs (path ++ name ∷ rest) ≡ true))

-- A call that fails where a file is missing, with no effect, and has an effect where it is.
abbrev pub OnFile :
    {Disk : Type 0}
    → (Disk → View)
    → PathBuf
    → Disk
    → IoResult (Unit {0}) × Disk
    → (List ℕ → View)
    → Type 0
OnFile view named d result effect =
    (((view d).files named ≡ none) → (result.0 ≡ err not_found) × Same (view result.1) (view d))
    × ((bytes : List ℕ)
        → (view d).files named ≡ some bytes
        → (result.0 ≡ ok tt) × Same (view result.1) (effect bytes))

-- What each call of a file system that never fails otherwise gives and does.
pub record Implements {Disk : Type 0} (fs : VaultFs Disk) (view : Disk → View) : Type 0 where
  pub read_absent : (p : PathBuf) (d : Disk) → (view d).files p ≡ none → fs.read p d ≡ err not_found
  pub read_file :
      (p : PathBuf) (d : Disk) (bytes : List ℕ)
      → (view d).files p ≡ some bytes
      → (fs.read p d ≡ ok bytes)
        × (fs.file_len p d ≡ ok (length bytes))
        × ((offset len : ℕ) → fs.read_range p offset len d ≡ ok (take len (drop offset bytes)))
  pub len_absent :
      (p : PathBuf) (d : Disk)
      → (view d).files p ≡ none
      → (fs.file_len p d ≡ err not_found)
        × ((offset len : ℕ) → fs.read_range p offset len d ≡ err not_found)
  pub exists_either :
      (p : PathBuf) (d : Disk) → fs.exists p d ≡ (is_some ((view d).files p) || (view d).dirs p)
  pub is_dir_view : (p : PathBuf) (d : Disk) → fs.is_dir p d ≡ (view d).dirs p
  pub write :
      (p : PathBuf) (bytes : List ℕ) (d : Disk)
      → ((fs.write p bytes d).0 ≡ ok tt)
        × Same (view ((fs.write p bytes d).1)) (with_file p bytes (view d))
  pub append :
      (p : PathBuf) (bytes : List ℕ) (d : Disk)
      → ((fs.append p bytes d).0 ≡ ok tt)
        × Same
            (view ((fs.append p bytes d).1))
            (with_file p (or_empty ((view d).files p) ++ bytes) (view d))
  pub append_sync :
      (p : PathBuf) (bytes : List ℕ) (d : Disk) → fs.append_sync p bytes d ≡ fs.append p bytes d
  pub create_sized :
      (p : PathBuf) (len : ℕ) (d : Disk)
      → ((fs.create_sized p len d).0 ≡ ok tt)
        × Same (view ((fs.create_sized p len d).1)) (with_file p (replicate len 0) (view d))
  pub write_range :
      (p : PathBuf) (offset : ℕ) (bytes : List ℕ) (d : Disk)
      → OnFile view p d
          (fs.write_range p offset bytes d)
          (λ file. with_file p (patched offset bytes file) (view d))
  pub rename :
      (from to : PathBuf) (d : Disk)
      → OnFile view from d (fs.rename from to d) (λ bytes. moved from to bytes (view d))
  pub remove_file :
      (p : PathBuf) (d : Disk)
      → OnFile view p d (fs.remove_file p d) (λ bytes. without_file p (view d))
  pub set_owner_only :
      (p : PathBuf) (d : Disk) → OnFile view p d (fs.set_owner_only p d) (λ bytes. owned p (view d))
  pub create_dir_all :
      (p : PathBuf) (d : Disk)
      → ((fs.create_dir_all p d).0 ≡ ok tt)
        × ((q : PathBuf) → (view ((fs.create_dir_all p d).1)).files q ≡ (view d).files q)
        × ((q : PathBuf) → (view ((fs.create_dir_all p d).1)).owners q ≡ (view d).owners q)
        × ((q : PathBuf)
            → ((view ((fs.create_dir_all p d).1)).dirs q ≡ true)
              ↔ (((view d).dirs q ≡ true) ⊎ LeadsTo q p))
  pub read_dir_absent :
      (p : PathBuf) (d : Disk) → (view d).dirs p ≡ false → fs.read_dir p d ≡ err not_found
  pub read_dir :
      (p : PathBuf) (d : Disk)
      → (view d).dirs p ≡ true
      → (listed : List PathBuf) × (fs.read_dir p d ≡ ok listed)
        × ((q : PathBuf)
            → Memᴰ q listed ↔ ((name : List ℕ) × (q ≡ p ++ name ∷ []) × HasEntry (view d) p name))
