-- ===== src/Sync/Engine/Pieces.antt =====
-- The chunks that make a blob: crates/roam-sync-core/src/engine.rs.
use roam.Prelude.{
  ℕ, ◌+◌, ◌-◌, ◌%◌, ◌≤◌, ◌<◌, true, false, ◌&&◌, List, length, take, drop, ltb, leb, ◌==◌, ◌≡◌,
  arith, ◌∙◌, inl, inr, Bool-cases,
}
use roam.Prelude.Keyed.{texts_key, text_key}
use roam.Prelude.Splices.{
  splice, byte_at, covers, byte_at-splice, byte_at-take, byte_at-drop, length-take_long,
  length-drop,
}
use roam.Sync.Chunks.{
  blob_chunk_size, chunk_offset_is_admissible, expected_chunk_len, chunk_is_admissible,
}
use roam.Sync.Chunks.Count.{chunk_of}

-- The bytes that are sent for an offset of a blob.
abbrev pub chunk_bytes : (blob : List ℕ) (offset : ℕ) → List ℕ
chunk_bytes blob offset = take (expected_chunk_len offset (length blob)) (drop offset blob)

pub offset_facts :
    (offset total_len : ℕ)
    → 0 < total_len
    → chunk_offset_is_admissible offset total_len ≡ true
    → (offset < total_len)
      × (offset % blob_chunk_size ≡ 0)
      × (expected_chunk_len offset total_len ≤ total_len - offset)
unfolding chunk_offset_is_admissible expected_chunk_len
offset_facts offset total_len some_bytes fine = ground arith

pub chunk_len :
    (blob : List ℕ) (offset : ℕ)
    → 0 < length blob
    → chunk_offset_is_admissible offset (length blob) ≡ true
    → (offset + length (chunk_bytes blob offset) ≤ length blob)
      × (length (chunk_bytes blob offset) ≡ expected_chunk_len offset (length blob))
chunk_len blob offset some_bytes fine =
    let (below, aligned, fits) = offset_facts offset (length blob) some_bytes fine in
    let rest = length-drop offset blob (omega (arith, below)) in
    let (taken, left) =
      length-take_long (expected_chunk_len offset (length blob)) (drop offset blob)
        (omega (arith, rest, fits)) in
    (omega (arith, taken, fits, below), taken)

pub chunk-admissible :
    (blob : List ℕ) (offset : ℕ)
    → 0 < length blob
    → chunk_offset_is_admissible offset (length blob) ≡ true
    → chunk_is_admissible offset (length blob) (length (chunk_bytes blob offset)) ≡ true
unfolding chunk_is_admissible
chunk-admissible blob offset some_bytes fine =
    rw fine (ground (arith, (chunk_len blob offset some_bytes fine).1))

-- A position that a chunk does not cover lies in another one.
not_covered :
    (offset pos len total_len : ℕ)
    → 0 < total_len
    → chunk_offset_is_admissible offset total_len ≡ true
    → len ≡ expected_chunk_len offset total_len
    → pos < total_len
    → (leb offset pos && ltb pos (offset + len)) ≡ false
    → (chunk_of pos == offset) ≡ false
unfolding chunk_offset_is_admissible expected_chunk_len
not_covered offset pos len total_len some_bytes fine sized inside out = ground arith

-- Writing a chunk of the blob gives each position that it covers its byte.
pub byte_at-chunk :
    (blob file : List ℕ) (offset pos : ℕ)
    → 0 < length blob
    → chunk_offset_is_admissible offset (length blob) ≡ true
    → length file ≡ length blob
    → pos < length blob
    → ((chunk_of pos == offset) ≡ false → byte_at pos file ≡ byte_at pos blob)
    → byte_at pos (splice offset (chunk_bytes blob offset) file) ≡ byte_at pos blob
byte_at-chunk blob file offset pos some_bytes fine same inside old =
    let bytes = chunk_bytes blob offset in
    let (fits, sized) = chunk_len blob offset some_bytes fine in
    let len = expected_chunk_len offset (length blob) in
    byte_at-splice offset bytes file pos (omega (arith, fits, same))
    ∙ elim (Bool-cases (covers offset bytes pos)) [
      | inl in' ↦
          let within : offset ≤ pos × (pos < offset + len) = ground (arith, in', sized) in
          rw in' (
            byte_at-take len (pos - offset) (drop offset blob) (omega (arith, within))
            ∙ byte_at-drop offset pos blob within.0)
      | inr out ↦ rw out (
          old
            (not_covered offset pos (length bytes) (length blob) some_bytes fine sized inside out))
    ]

-- A device with its blobs in memory.
