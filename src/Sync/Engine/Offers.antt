-- ===== src/Sync/Engine/Offers.antt =====
-- What the engine sends on its own account or on connecting:
-- crates/roam-sync-core/src/engine.rs.
use roam.Prelude.{
  ℕ, Bool, true, false, not, Option, none, some, List, [], ◌∷◌, ◌++◌, map, length, drop, select,
  leb, if◌then◌else◌,
}
use roam.Prelude.Maps.{contains, insert}
use roam.Prelude.Keyed.{find, put, number_key}
use roam.Sync.Frame.{
  Frame, hello, have, ops, roster_have, roster_ops, blob_want, keylog_have, keylog_ops,
  snapshot_have,
}
use roam.Sync.Engine.{
  Device, Engine, Effect, send, dial, local_flush, Step, or_default, ids_or_default, is_empty,
  active_peers, held_peer_logs, held_keylogs, missing_blob_hashes,
}

pub record Offer : Type 0 where
  pub doc_version : List ℕ
  pub roster_have : List (ℕ × ℕ)
  pub own_log : List ℕ
  pub own_roster : List ℕ
  pub peer_logs : List (ℕ × List ℕ)
  pub own_keylog : List ℕ
  pub keylogs : List (ℕ × List ℕ)

-- A frame for each log.
abbrev pub send_logs : (ℕ → List ℕ → Frame) → (peer : ℕ) → List (ℕ × List ℕ) → List Effect
send_logs frame peer [] = []
send_logs frame peer ((author, jsonl) ∷ logs) =
    send peer (frame author jsonl) ∷ send_logs frame peer logs

abbrev pub to_each : (ℕ → Effect) → List ℕ → List Effect
to_each effect [] = []
to_each effect (peer ∷ peers) = effect peer ∷ to_each effect peers

-- What a peer with this offset has not been sent.
abbrev pub suffix_from : (own_log : List ℕ) (offset : ℕ) → List ℕ
suffix_from own_log offset =
    drop (if leb offset (length own_log) then offset else length own_log) own_log

abbrev pub pushes_of : (me : ℕ) (own_log : List ℕ) → List (ℕ × ℕ) → List Effect
pushes_of me own_log [] = []
pushes_of me own_log ((peer, offset) ∷ offsets) =
    let suffix = suffix_from own_log offset in
    let rest = pushes_of me own_log offsets in
    if is_empty suffix then rest else send peer (ops me suffix) ∷ rest

abbrev pub advance_all : ℕ → List (ℕ × ℕ) → List (ℕ × ℕ)
advance_all end [] = []
advance_all end ((peer, offset) ∷ offsets) = (peer, end) ∷ advance_all end offsets

unfoldable pub ensure_offset : (peer : ℕ) → List (ℕ × ℕ) → List (ℕ × ℕ)
ensure_offset peer offsets = elim (find peer offsets) [
  | none ↦ put peer 0 offsets
  | some offset ↦ offsets
]

module _ {Vault Keychain Version Disk : Type 0} (device : Device Vault Keychain Version Disk) where
  unfoldable pub own_log_of : Vault → List ℕ
  own_log_of vault = or_default (device.calls.export_own_log vault)

  unfoldable pub gather_offer : Vault → Offer
  gather_offer vault = record {
    doc_version = device.calls.doc_version_bytes vault;
    roster_have = map (λ p. (p.peer_id, 0)) (device.calls.roster vault);
    own_log = own_log_of vault;
    own_roster = or_default (device.calls.export_own_roster vault);
    peer_logs = held_peer_logs device vault;
    own_keylog = or_default (device.calls.export_own_keylog vault);
    keylogs = held_keylogs device vault;
  }

  -- The sends of `send_bundle`.
  abbrev pub bundle : (peer : ℕ) → Offer → List Effect
  bundle peer offer =
      send peer (hello device.vault_id)
      ∷ send peer (roster_have offer.roster_have)
      ∷ send peer (have offer.doc_version)
      ∷ send peer (ops device.peer_id offer.own_log)
      ∷ (send_logs ops peer offer.peer_logs
          ++ (send peer (roster_ops device.peer_id offer.own_roster)
              ∷ send peer
                  (keylog_have ((device.peer_id, 0) ∷ map (λ log. (log.0, 0)) offer.keylogs))
              ∷ send peer (keylog_ops device.peer_id offer.own_keylog)
              ∷ send_logs keylog_ops peer offer.keylogs))

  unfoldable pub send_bundle : (peer : ℕ) → Engine Vault Disk → Step Vault Disk
  send_bundle peer s =
      let offer = gather_offer s.vault in
      (
        record s {
          sent_offsets = put peer (length offer.own_log) s.sent_offsets;
          connected = insert peer s.connected;
        },
        bundle peer offer,
      )

  -- `transport.dial` succeeds for the peers that are `reachable`.
  unfoldable pub connect : (reachable : ℕ → Bool) (peer : ℕ) → Engine Vault Disk → Step Vault Disk
  connect reachable peer s =
      let sent = send_bundle peer s in
      if reachable peer then (sent.0, dial peer ∷ sent.1) else (s, dial peer ∷ [])

  -- The loop of `reconnect_active`.
  abbrev pub connect_each : (reachable : ℕ → Bool) → List ℕ → Engine Vault Disk → Step Vault Disk
  connect_each reachable [] s = (s, [])
  connect_each reachable (peer ∷ peers) s =
      let first = connect reachable peer s in
      let rest = connect_each reachable peers first.0 in (rest.0, first.1 ++ rest.1)

  unfoldable pub reconnect_active : (reachable : ℕ → Bool) → Engine Vault Disk → Step Vault Disk
  reconnect_active reachable s = connect_each reachable (active_peers device s.vault) s

  unfoldable pub flush_local : Engine Vault Disk → Step Vault Disk
  flush_local s =
      let own_log = own_log_of s.vault in
      (
        record s { sent_offsets = advance_all (length own_log) s.sent_offsets },
        pushes_of device.peer_id own_log s.sent_offsets ++ local_flush ∷ [],
      )

  -- A failed edit is the caller's error, and nothing is pushed.
  unfoldable pub edit_text :
      (id : List ℕ) (pos : ℕ) (text : List ℕ) → Engine Vault Disk → Bool × Step Vault Disk
  edit_text id pos text s =
      let edited = device.calls.edit_text id pos text s.vault in
      let s1 = record s { vault = edited.1 } in
      if edited.0 then (true, flush_local s1) else (false, (s1, []))

  -- For each peer, a request for each hash.
  abbrev pub request_from : (wanted : List (List ℕ)) (peer : ℕ) → List Effect
  request_from [] peer = []
  request_from (hash ∷ wanted) peer = send peer (blob_want hash) ∷ request_from wanted peer

  abbrev pub request_each : (wanted : List (List ℕ)) → List ℕ → List Effect
  request_each wanted [] = []
  request_each wanted (peer ∷ peers) = request_from wanted peer ++ request_each wanted peers

  unfoldable pub request_missing_blobs : Engine Vault Disk → Step Vault Disk
  request_missing_blobs s =
      let wanted = missing_blob_hashes device s.vault s.disk in
      let active = active_peers device s.vault in
      let peers = select (λ p. contains p active) s.connected in
      if is_empty wanted then (s, []) else (s, request_each wanted peers)

  unfoldable pub broadcast_own_roster : Engine Vault Disk → Step Vault Disk
  broadcast_own_roster s =
      let jsonl = or_default (device.calls.export_own_roster s.vault) in
      (s, to_each (λ peer. send peer (roster_ops device.peer_id jsonl)) s.connected)

  unfoldable pub broadcast_own_keylog : Engine Vault Disk → Step Vault Disk
  broadcast_own_keylog s =
      let jsonl = or_default (device.calls.export_own_keylog s.vault) in
      (s, to_each (λ peer. send peer (keylog_ops device.peer_id jsonl)) s.connected)

  unfoldable pub push_logs : (peer : ℕ) → Vault → List Effect
  push_logs peer vault =
      send peer (ops device.peer_id (own_log_of vault))
      ∷ send_logs ops peer (held_peer_logs device vault)

  abbrev pub is_behind : Version → Option Version → Bool
  is_behind incoming none = false
  is_behind incoming (some ours) = not (device.versions.includes incoming ours)

  unfoldable pub offer_snapshots : (peer : ℕ) → Version → Vault → List Effect
  offer_snapshots peer incoming vault =
      let ours = device.versions.from_bytes (device.calls.doc_version_bytes vault) in
      let ids =
        if is_behind incoming ours
        then ids_or_default (device.calls.held_snapshot_ids vault)
        else [] in
      if is_empty ids then [] else send peer (snapshot_have ids) ∷ []
