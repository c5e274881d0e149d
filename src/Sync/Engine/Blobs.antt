-- ===== src/Sync/Engine/Blobs.antt =====
-- The handlers of `Engine::handle` for blobs: crates/roam-sync-core/src/engine.rs.
use roam.Prelude.{
  ℕ, zero, suc, ◌+◌, Bool, true, false, not, ◌||◌, none, some, List, [], ◌∷◌, length, ltb, ◌==◌,
  if◌then◌else◌,
}
use roam.Prelude.Keyed.{find, put, delete, number_key, text_key}
use roam.Prelude.Outcomes.{err, ok}
use roam.Prelude.Trim.{same_text}
use roam.Storage.Blob
use roam.Storage.Blob.{
  BlobStore, has, size, read_range, write_incoming_chunk, finalize_incoming, discard_incoming,
}
use roam.Sync.Frame.{blob_chunk}
use roam.Sync.Chunks.{
  max_incoming_blob_bytes, expected_chunk_len, chunk_is_admissible, entry_or_new, count_chunk,
  is_complete,
}
use roam.Sync.Engine.{Device, Engine, Effect, send, Step, is_active, fileset_wants}
use roam.Sync.Engine.Gossip.{signal_if}

module _ {Vault Keychain Version Disk : Type 0} (device : Device Vault Keychain Version Disk) where
  -- The loop that serves a blob, on fuel: each round sends at least one byte.
  unfoldable pub serve_from :
      (fuel : ℕ) (peer : ℕ) (hash : List ℕ) (offset total_len : ℕ) → Disk → List Effect
  serve_from zero peer hash offset total_len disk = []
  serve_from (suc fuel) peer hash offset total_len disk =
      let want = expected_chunk_len offset total_len in
      elim (ltb offset total_len) [
        | false ↦ []
        | true ↦ elim (read_range device.blobs hash offset want disk) [
          | err e ↦ []
          | ok [] ↦ []
          | ok (b ∷ bytes) ↦
              send peer (blob_chunk hash offset total_len (b ∷ bytes))
              ∷ serve_from fuel peer hash (offset + length (b ∷ bytes)) total_len disk
        ]
      ]

  abbrev pub serve : (peer : ℕ) (hash : List ℕ) (total_len : ℕ) → Disk → List Effect
  serve peer hash total_len disk =
      if total_len == 0
      then send peer (blob_chunk hash 0 0 []) ∷ []
      else serve_from total_len peer hash 0 total_len disk

  unfoldable pub on_blob_want : (peer : ℕ) (hash : List ℕ) → Engine Vault Disk → Step Vault Disk
  on_blob_want peer hash s =
      if not (is_active device peer s.vault)
      then (s, [])
      else elim (size device.blobs hash s.disk) [
        | err e ↦ (s, [])
        | ok none ↦ (s, [])
        | ok (some total_len) ↦ (s, serve peer hash total_len s.disk)
      ]

  abbrev pub is_stored : Blob.Result (List ℕ) → Bool
  is_stored (err e) = false
  is_stored (ok hash) = true

  unfoldable pub on_blob_data : (hash bytes : List ℕ) → Engine Vault Disk → Step Vault Disk
  on_blob_data hash bytes s =
      let stored = Blob.put device.blobs device.blake3 bytes s.disk in
      if not (same_text (device.blake3 bytes) hash)
      then (s, [])
      else if has device.blobs hash s.disk || not (fileset_wants device hash s.vault)
      then (s, [])
      else (record s { disk = stored.1 }, signal_if (is_stored stored.0))

  abbrev pub is_final : Blob.Result Bool → Bool
  is_final (err e) = false
  is_final (ok done) = done

  -- A complete blob, whose entry is gone.
  abbrev pub settle : (hash : List ℕ) → Engine Vault Disk → Step Vault Disk
  settle hash s =
      let discarded = discard_incoming device.blobs hash s.disk in
      let final = finalize_incoming device.blobs device.blake3 hash s.disk in
      if has device.blobs hash s.disk
      then (record s { disk = discarded.1 }, [])
      else (record s { disk = final.1 }, signal_if (is_final final.0))

  abbrev pub chunk_written :
      (hash : List ℕ) (offset total_len len : ℕ) → Engine Vault Disk → Step Vault Disk
  chunk_written hash offset total_len len s =
      let entry =
        count_chunk offset total_len len (entry_or_new total_len (find hash s.incoming_blobs)) in
      if is_complete entry
      then settle hash (record s { incoming_blobs = delete hash s.incoming_blobs })
      else (record s { incoming_blobs = put hash entry s.incoming_blobs }, [])

  unfoldable pub on_blob_chunk :
      (hash : List ℕ) (offset total_len : ℕ) (bytes : List ℕ) → Engine Vault Disk → Step Vault Disk
  on_blob_chunk hash offset total_len bytes s =
      let written = write_incoming_chunk device.blobs hash offset total_len bytes s.disk in
      let s1 = record s { disk = written.1 } in
      if ltb max_incoming_blob_bytes total_len
      then (s, [])
      else if not (chunk_is_admissible offset total_len (length bytes))
      then (s, [])
      else if has device.blobs hash s.disk || not (fileset_wants device hash s.vault)
      then (s, [])
      else elim written.0 [
        | err e ↦ (s1, [])
        | ok done ↦ chunk_written hash offset total_len (length bytes) s1
      ]
