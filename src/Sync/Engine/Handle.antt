-- ===== src/Sync/Engine/Handle.antt =====
-- The handlers of `Engine::handle` for snapshots, its match, and `Engine::run`:
-- crates/roam-sync-core/src/engine.rs.
use roam.Prelude.{ℕ, Bool, not, none, some, List, [], ◌∷◌, ◌++◌, any, if◌then◌else◌}
use roam.Prelude.Keyed.{number_key, text_key}
use roam.Prelude.Trim.{same_text}
use roam.Sync.Frame.{
  Frame, hello, have, ops, roster_have, roster_ops, ping, blob_want, blob_data, keylog_have,
  keylog_ops, snapshot_have, snapshot_want, snapshot_data, blob_chunk,
}
use roam.Sync.Engine.{Device, Engine, Effect, send, Step, ids_or_default, is_active}
use roam.Sync.Engine.Gossip.{
  applied, on_hello, on_have, on_ops, on_roster_ops, on_roster_have, on_keylog_ops, on_keylog_have,
}
use roam.Sync.Engine.Blobs.{on_blob_want, on_blob_data, on_blob_chunk}

-- A frame that comes in from a peer, and the peers that can be dialled then.
pub record Arrival : Type 0 where
  pub peer : ℕ
  pub frame : Frame
  pub reachable : ℕ → Bool

module _ {Vault Keychain Version Disk : Type 0} (device : Device Vault Keychain Version Disk) where
  abbrev pub want_each : (peer : ℕ) (held ids : List (List ℕ)) → List Effect
  want_each peer held [] = []
  want_each peer held (id ∷ ids) =
      let rest = want_each peer held ids in
      if any (λ old. same_text old id) held then rest else send peer (snapshot_want id) ∷ rest

  unfoldable pub on_snapshot_have :
      (peer : ℕ) (ids : List (List ℕ)) → Engine Vault Disk → Step Vault Disk
  on_snapshot_have peer ids s =
      let held = ids_or_default (device.calls.held_snapshot_ids s.vault) in
      if not (is_active device peer s.vault) then (s, []) else (s, want_each peer held ids)

  unfoldable pub on_snapshot_want : (peer : ℕ) (id : List ℕ) → Engine Vault Disk → Step Vault Disk
  on_snapshot_want peer id s =
      if not (is_active device peer s.vault)
      then (s, [])
      else elim (device.calls.load_snapshot_object id s.vault) [
        | none ↦ (s, [])
        | some framed ↦ (s, send peer (snapshot_data framed) ∷ [])
      ]

  unfoldable pub on_snapshot_data :
      (peer : ℕ) (framed : List ℕ) → Engine Vault Disk → Step Vault Disk
  on_snapshot_data peer framed s =
      let id = device.blake3 framed in
      let authors = device.calls.admin_author_keys s.vault in
      if not (is_active device peer s.vault)
      then (s, [])
      else elim (device.calls.keychain s.vault) [
        | none ↦ (s, [])
        | some kc ↦
            applied device (device.calls.verify_and_adopt_snapshot kc authors id framed s.vault) s
      ]

  -- The match of `handle`. Dialling succeeds for the peers that are `reachable`.
  abbrev pub handle :
      (reachable : ℕ → Bool) (peer : ℕ) → Frame → Engine Vault Disk → Step Vault Disk
  handle reachable peer (hello vault) = on_hello device peer vault
  handle reachable peer (have doc_version) = on_have device peer doc_version
  handle reachable peer (ops author jsonl) = on_ops device author jsonl
  handle reachable peer (roster_have authors) = on_roster_have device peer
  handle reachable peer (roster_ops author jsonl) = on_roster_ops device reachable author jsonl
  handle reachable peer ping = λ s. (s, [])
  handle reachable peer (blob_want hash) = on_blob_want device peer hash
  handle reachable peer (blob_data hash bytes) = on_blob_data device hash bytes
  handle reachable peer (keylog_have authors) = on_keylog_have device peer
  handle reachable peer (keylog_ops author jsonl) = on_keylog_ops device author jsonl
  handle reachable peer (snapshot_have ids) = on_snapshot_have peer ids
  handle reachable peer (snapshot_want id) = on_snapshot_want peer id
  handle reachable peer (snapshot_data framed) = on_snapshot_data peer framed
  handle reachable peer (blob_chunk hash offset total_len bytes) =
      on_blob_chunk device hash offset total_len bytes

  -- `run`, for the frames that come in.
  unfoldable pub run : List Arrival → Engine Vault Disk → Step Vault Disk
  run [] s = (s, [])
  run (arrival ∷ incoming) s =
      let first = handle arrival.reachable arrival.peer arrival.frame s in
      let rest = run incoming first.0 in (rest.0, first.1 ++ rest.1)
