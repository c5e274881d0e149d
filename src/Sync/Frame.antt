-- ===== src/Sync/Frame.antt =====
-- The messages of the sync protocol: crates/roam-sync-core/src/frame.rs.
use roam.Prelude.{ℕ, List}
use roam.Prelude.Bytes.{codes}

-- A text is its UTF-8 bytes.
pub data Frame : Type 0 where
  hello : (vault : List ℕ) → Frame
  have : (doc_version : List ℕ) → Frame
  ops : (author : ℕ) (jsonl : List ℕ) → Frame
  roster_have : (authors : List (ℕ × ℕ)) → Frame
  roster_ops : (author : ℕ) (jsonl : List ℕ) → Frame
  ping : Frame
  blob_want : (hash : List ℕ) → Frame
  blob_data : (hash bytes : List ℕ) → Frame
  keylog_have : (authors : List (ℕ × ℕ)) → Frame
  keylog_ops : (author : ℕ) (jsonl : List ℕ) → Frame
  snapshot_have : (ids : List (List ℕ)) → Frame
  snapshot_want : (id : List ℕ) → Frame
  snapshot_data : (framed : List ℕ) → Frame
  blob_chunk : (hash : List ℕ) (offset total_len : ℕ) (bytes : List ℕ) → Frame

-- `Frame::kind`
abbrev pub kind : Frame → List ℕ
kind (hello v) = codes "Hello"
kind (have d) = codes "Have"
kind (ops a j) = codes "Ops"
kind (roster_have as') = codes "RosterHave"
kind (roster_ops a j) = codes "RosterOps"
kind ping = codes "Ping"
kind (blob_want h) = codes "BlobWant"
kind (blob_data h b) = codes "BlobData"
kind (keylog_have as') = codes "KeylogHave"
kind (keylog_ops a j) = codes "KeylogOps"
kind (snapshot_have is) = codes "SnapshotHave"
kind (snapshot_want i) = codes "SnapshotWant"
kind (snapshot_data f) = codes "SnapshotData"
kind (blob_chunk h o t b) = codes "BlobChunk"
