-- ===== src/Sync/Chunks.antt =====
-- The bookkeeping of blobs that come in chunks: crates/roam-sync-core/src/engine.rs.
pub mod Count
use roam.Prelude.{
  ℕ, ◌+◌, ◌-◌, ◌*◌, ◌%◌, Bool, true, false, ◌&&◌, Option, none, some, List, [], ltb, leb, ◌==◌,
  if◌then◌else◌,
}
use roam.Prelude.Maps.{contains, insert}

-- `BLOB_CHUNK_SIZE`
abbrev pub blob_chunk_size : ℕ
blob_chunk_size = 1024 * 1024

-- `MAX_INCOMING_BLOB_BYTES`
abbrev pub max_incoming_blob_bytes : ℕ
max_incoming_blob_bytes = 16 * 1024 * 1024 * 1024

pub record IncomingBlob : Type 0 where
  pub total_len : ℕ
  pub received : ℕ
  pub seen : List ℕ

unfoldable pub chunk_offset_is_admissible : (offset total_len : ℕ) → Bool
chunk_offset_is_admissible offset total_len =
    if total_len == 0 then offset == 0 else ltb offset total_len && offset % blob_chunk_size == 0

-- The subtraction is made where the offset lies below the total only.
unfoldable pub expected_chunk_len : (offset total_len : ℕ) → ℕ
expected_chunk_len offset total_len =
    if leb blob_chunk_size (total_len - offset) then blob_chunk_size else total_len - offset

unfoldable pub chunk_is_admissible : (offset total_len len : ℕ) → Bool
chunk_is_admissible offset total_len len =
    chunk_offset_is_admissible offset total_len && len == expected_chunk_len offset total_len

-- `map.entry(hash).or_insert_with(…)`
abbrev pub entry_or_new : (total_len : ℕ) → Option IncomingBlob → IncomingBlob
entry_or_new total_len none = record { total_len = total_len; received = 0; seen = [] }
entry_or_new total_len (some entry) = entry

-- A chunk that comes in counts if its total agrees and its offset is new.
unfoldable pub count_chunk : (offset total_len len : ℕ) → IncomingBlob → IncomingBlob
count_chunk offset total_len len entry =
    if entry.total_len == total_len
    then (if contains offset entry.seen
        then entry
        else record entry { received = entry.received + len; seen = insert offset entry.seen })
    else entry

abbrev pub is_complete : IncomingBlob → Bool
is_complete entry = leb entry.total_len entry.received
