-- ===== src/Sync/Engine.antt =====
-- The state of one device's `Engine` and what it is built on: crates/roam-sync-core/src/engine.rs.
-- A handler of a frame runs to its end before the next one.
pub mod Offers
pub mod Admin
pub mod Gossip
pub mod Blobs
pub mod Handle
pub mod Cases
pub mod Gate
pub mod Hellos
pub mod Greeting
pub mod Tracked
pub mod Pieces
pub mod Acked
pub mod Push
pub mod Reachable
pub mod Assembly
pub mod Transfer
pub mod Revoked
use roam.Prelude.{
  ℕ, Bool, true, false, ◌&&◌, not, Option, none, some, List, [], ◌∷◌, any, select, map, ◌==◌,
  if◌then◌else◌,
}
use roam.Prelude.Trim.{same_text}
use roam.Roster.Entry.{Role, PeerStatus, active, revoked, PeerRecord}
use roam.Files.Entry.{FileEntry, is_live_blob}
use roam.Storage.Blob.{BlobStore, has}
use roam.Sync.Frame.{Frame}
use roam.Sync.Chunks.{IncomingBlob}

-- The calls of `Store` that the engine makes. `none` and `false` stand for an error. The keys that
-- it passes to some of them are constants of the engine.
pub record StoreCalls (Vault Keychain : Type 0) : Type 0 where
  pub roster : Vault → List PeerRecord
  pub export_own_log : Vault → Option (List ℕ)
  pub export_own_roster : Vault → Option (List ℕ)
  pub export_own_keylog : Vault → Option (List ℕ)
  pub export_peer_log : (peer : ℕ) → Vault → Option (List ℕ)
  pub export_keylog : (peer : ℕ) → Vault → Option (List ℕ)
  pub doc_version_bytes : Vault → List ℕ
  pub held_snapshot_ids : Vault → Option (List (List ℕ))
  pub load_snapshot_object : (id : List ℕ) → Vault → Option (List ℕ)
  -- The values of the map `FILESET_MAP_ID`.
  pub entries : Vault → List (List ℕ)
  pub edit_text : (id : List ℕ) (pos : ℕ) (text : List ℕ) → Vault → Bool × Vault
  pub apply_peer_ops : (author : ℕ) (key jsonl : List ℕ) → Vault → Bool × Vault
  pub import_roster : (author : ℕ) (key jsonl : List ℕ) → Vault → Bool × Vault
  pub import_keylog : (author : ℕ) (key jsonl : List ℕ) → Vault → Bool × Vault
  pub keychain : Vault → Option Keychain
  pub admin_author_keys : Vault → List (ℕ × List ℕ)
  -- Whether the outcome is `Adopted`.
  pub verify_and_adopt_snapshot :
      Keychain → List (ℕ × List ℕ) → (id framed : List ℕ) → Vault → Bool × Vault
  pub add_peer : (peer : ℕ) (key : List ℕ) → Role → Vault → Bool × Vault
  pub revoke_peer : (peer : ℕ) (key : List ℕ) → Vault → Bool × Vault
  pub set_role : (peer : ℕ) (key : List ℕ) → Role → Vault → Bool × Vault
  pub set_device_name : (name : List ℕ) → Vault → Bool × Vault
  pub rotate_epoch : (paper_public : Option (List ℕ)) → Vault → Option (List ℕ) × Vault
  pub recover_with_paper : (phrase : List ℕ) → Vault → Option ℕ × Vault
  pub backfill_wraps : Vault → Option ℕ × Vault

-- Version vectors are loro's.
pub record Versions (Version : Type 0) : Type 0 where
  pub from_bytes : List ℕ → Option Version
  pub includes : Version → Version → Bool

-- What does not change while the engine runs. `from_value` is serde's reading of an entry,
-- `is_key` says whether bytes are an ed25519 key, and `blake3` yields the text of a digest.
pub record Device (Vault Keychain Version Disk : Type 0) : Type 0 where
  pub peer_id : ℕ
  pub vault_id : List ℕ
  pub calls : StoreCalls Vault Keychain
  pub versions : Versions Version
  pub from_value : List ℕ → Option FileEntry
  pub is_key : List ℕ → Bool
  pub blobs : BlobStore Disk
  pub blake3 : List ℕ → List ℕ

-- The maps are keyed by peers, the last one by hashes.
pub record Engine (Vault Disk : Type 0) : Type 0 where
  pub vault : Vault
  pub disk : Disk
  pub sent_offsets : List (ℕ × ℕ)
  pub acked_versions : List (ℕ × List ℕ)
  pub connected : List ℕ
  pub incoming_blobs : List (List ℕ × IncomingBlob)

-- What the engine does to the outside: calls of the transport, and its two signals.
pub data Effect : Type 0 where
  send : (peer : ℕ) → Frame → Effect
  dial : (peer : ℕ) → Effect
  add_route : (peer : ℕ) (key : List ℕ) → Effect
  remove_route : (peer : ℕ) → Effect
  changed local_flush : Effect

-- A state and the effects on the way to it, in their order.
abbrev pub Step : (Vault Disk : Type 0) → Type 0
Step Vault Disk = Engine Vault Disk × List Effect

-- `Engine::with_store`
abbrev pub with_store : {Vault Disk : Type 0} → Vault → Disk → Engine Vault Disk
with_store vault disk = record {
  vault = vault;
  disk = disk;
  sent_offsets = [];
  acked_versions = [];
  connected = [];
  incoming_blobs = [];
}

abbrev pub is_active_status : PeerStatus → Bool
is_active_status active = true
is_active_status revoked = false

abbrev pub or_default : Option (List ℕ) → List ℕ
or_default none = []
or_default (some bytes) = bytes

abbrev pub ids_or_default : Option (List (List ℕ)) → List (List ℕ)
ids_or_default none = []
ids_or_default (some ids) = ids

abbrev pub is_empty {ℓ} : {A : Type ℓ} → List A → Bool
is_empty [] = true
is_empty (a ∷ as') = false

abbrev pub find_peer : ℕ → List PeerRecord → Option PeerRecord
find_peer peer [] = none
find_peer peer (p ∷ ps) = if p.peer_id == peer then some p else find_peer peer ps

module _ {Vault Keychain Version Disk : Type 0} (device : Device Vault Keychain Version Disk) where
  unfoldable pub is_active : (peer : ℕ) → Vault → Bool
  is_active peer vault =
      any (λ p. p.peer_id == peer && is_active_status p.status) (device.calls.roster vault)

  abbrev pub checked_key : List ℕ → Option (List ℕ)
  checked_key key = if device.is_key key then some key else none

  unfoldable pub key_for : (peer : ℕ) → Vault → Option (List ℕ)
  key_for peer vault = elim (find_peer peer (device.calls.roster vault)) [
    | none ↦ none
    | some p ↦ checked_key p.verifying_key
  ]

  -- The Active peers of the roster but this device.
  abbrev pub other_active : PeerRecord → Bool
  other_active p = is_active_status p.status && not (p.peer_id == device.peer_id)

  unfoldable pub active_peers : Vault → List ℕ
  active_peers vault = map (λ p. p.peer_id) (select other_active (device.calls.roster vault))

  -- `held_peer_logs` and `held_keylogs`, from the call that exports one of them.
  abbrev pub held_from : (ℕ → Vault → Option (List ℕ)) → List ℕ → Vault → List (ℕ × List ℕ)
  held_from export [] vault = []
  held_from export (peer ∷ peers) vault =
      let rest = held_from export peers vault in
      elim (export peer vault) [
        | none ↦ rest
        | some jsonl ↦ if is_empty jsonl then rest else (peer, jsonl) ∷ rest
      ]

  unfoldable pub held_peer_logs : Vault → List (ℕ × List ℕ)
  unfolding active_peers
  held_peer_logs vault = held_from device.calls.export_peer_log (active_peers vault) vault

  unfoldable pub held_keylogs : Vault → List (ℕ × List ℕ)
  unfolding active_peers
  held_keylogs vault = held_from device.calls.export_keylog (active_peers vault) vault

  -- The hashes of the live blob entries that can be read.
  abbrev pub blob_hashes : List (List ℕ) → List (List ℕ)
  blob_hashes [] = []
  blob_hashes (value ∷ values) =
      let rest = blob_hashes values in
      elim (device.from_value value) [
        | none ↦ rest
        | some entry ↦ if is_live_blob entry then entry.content_hash ∷ rest else rest
      ]

  unfoldable pub fileset_wants : (hash : List ℕ) → Vault → Bool
  fileset_wants hash vault =
      any (λ wanted. same_text wanted hash) (blob_hashes (device.calls.entries vault))

  -- The filter of presence and that of repetition, which `seen` is for.
  abbrev pub missing_from : (seen : List (List ℕ)) → List (List ℕ) → Disk → List (List ℕ)
  missing_from seen [] disk = []
  missing_from seen (hash ∷ hashes) disk =
      let rest = missing_from seen hashes disk in
      let more = missing_from (hash ∷ seen) hashes disk in
      if has device.blobs hash disk
      then rest
      else if any (λ old. same_text old hash) seen
      then rest
      else hash ∷ more

  unfoldable pub missing_blob_hashes : Vault → Disk → List (List ℕ)
  missing_blob_hashes vault disk = missing_from [] (blob_hashes (device.calls.entries vault)) disk
