-- ===== src/Files/Entry.antt =====
-- The values of the file-set map: crates/roam-files/src/fileset.rs.
use roam.Prelude.{ℕ, Bool, true, false, Option, none, List}
use roam.Prelude.Bytes.{codes}

-- `FILESET_MAP_ID`
abbrev pub fileset_map_id : List ℕ
fileset_map_id = codes "__roam_fileset__"

pub data EntryStatus : Type 0 where
  live tombstoned : EntryStatus

pub data EntryKind : Type 0 where
  text blob : EntryKind

-- A text is its UTF-8 bytes.
pub record FileEntry : Type 0 where
  pub kind : EntryKind
  pub status : EntryStatus
  pub content_hash : List ℕ
  pub renamed_from : Option (List ℕ)
  pub tombstoned_at : Option (List ℕ)

abbrev pub to_live : FileEntry → FileEntry
to_live entry = record entry { status = live; tombstoned_at = none }

-- `entry.kind == EntryKind::Blob && entry.status == EntryStatus::Live`
abbrev pub is_live_blob_of : EntryKind → EntryStatus → Bool
is_live_blob_of blob live = true
is_live_blob_of blob tombstoned = false
is_live_blob_of text live = false
is_live_blob_of text tombstoned = false

abbrev pub is_live_blob : FileEntry → Bool
is_live_blob entry = is_live_blob_of entry.kind entry.status
