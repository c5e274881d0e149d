-- ===== src/Storage/Vfs/Refinement.antt =====
-- `MemFs` of crates/roam-storage/src/vfs.rs implements the abstract file system.
use roam.Prelude.{List}
use roam.Prelude.Keyed.{find, texts_key, text_key}
use roam.Storage.Vfs.Memory.{MemState, is_some}
use roam.Storage.Vfs.Reference.{View}

abbrev pub view : MemState → View
view d = record {
  files = λ path. find path d.files;
  dirs = λ path. is_some (find path d.dirs);
  owners = λ path. is_some (find path d.owner_only);
}
