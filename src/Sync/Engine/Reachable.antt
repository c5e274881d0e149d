-- ===== src/Sync/Engine/Reachable.antt =====
-- The states that an engine can come to, and what is true of all of them.
use roam.Prelude.{
  ℕ, Bool, true, false, Option, none, some, List, [], ◌∷◌, ltb, arith, inl, inr, Bool-cases,
  Option-cases, length,
}
use roam.Prelude.Maps.{contains-insert}
use roam.Prelude.Keyed.{number_key}
use roam.Roster.Entry.{Role}
use roam.Sync.Frame.{
  Frame, hello, have, ops, roster_have, roster_ops, ping, blob_want, blob_data, keylog_have,
  keylog_ops, snapshot_have, snapshot_want, snapshot_data, blob_chunk,
}
use roam.Sync.Engine.{Device, Engine, Step, with_store, active_peers, is_empty, missing_blob_hashes}
use roam.Sync.Engine.Offers.{
  send_bundle, connect, connect_each, reconnect_active, flush_local, edit_text, own_log_of,
  ensure_offset, request_missing_blobs, broadcast_own_roster, broadcast_own_keylog, gather_offer,
}
use roam.Sync.Engine.Admin.{
  forget, changed_roster, add_peer, revoke_peer, set_role, set_device_name, rotate_epoch,
  counted_keylog, recover_with_paper, backfill_wraps,
}
use roam.Sync.Engine.Gossip.{new_peers, meet_each, roster_imported}
use roam.Sync.Engine.Handle.{handle}
use roam.Sync.Engine.Push.{advance_all-IsAscending, find-advance_all}
use roam.Sync.Engine.Cases.{
  on_hello-cases, on_have-cases, on_ops-cases, on_roster_have-cases, on_roster_ops-cases,
  on_blob_want-cases, on_blob_data-cases, on_keylog_have-cases, on_keylog_ops-cases,
  on_snapshot_have-cases, on_snapshot_want-cases, on_snapshot_data-cases, on_blob_chunk-cases,
}
use roam.Sync.Engine.Tracked.{
  IsConsistent, delete-AreTracked, delete-IsAscending, ensure_offset-AreTracked, put-AreTracked,
  put-IsAscending,
}

module _ {Vault Keychain Version Disk : Type 0} (device : Device Vault Keychain Version Disk) where
  -- What can happen: a frame comes in, the embedder calls the engine, or another user of the shared
  -- store changes it.
  pub data Moves (s : Engine Vault Disk) : Engine Vault Disk → Type 0 where
    handles :
        (reachable : ℕ → Bool) (peer : ℕ) (frame : Frame)
        → Moves s (handle device reachable peer frame s).0
    connects : (reachable : ℕ → Bool) (peer : ℕ) → Moves s (connect device reachable peer s).0
    reconnects : (reachable : ℕ → Bool) → Moves s (reconnect_active device reachable s).0
    flushes : Moves s (flush_local device s).0
    edits : (id : List ℕ) (pos : ℕ) (text : List ℕ) → Moves s (edit_text device id pos text s).1.0
    requests : Moves s (request_missing_blobs device s).0
    adds : (peer : ℕ) (key : List ℕ) (role : Role) → Moves s (add_peer device peer key role s).1.0
    revokes : (peer : ℕ) (key : List ℕ) → Moves s (revoke_peer device peer key s).1.0
    sets_role :
        (peer : ℕ) (key : List ℕ) (role : Role) → Moves s (set_role device peer key role s).1.0
    names : (name : List ℕ) → Moves s (set_device_name device name s).1.0
    rotates : (paper : Option (List ℕ)) → Moves s (rotate_epoch device paper s).1.0
    recovers : (phrase : List ℕ) → Moves s (recover_with_paper device phrase s).1.0
    backfills : Moves s (backfill_wraps device s).1.0
    shares : (vault : Vault) (disk : Disk) → Moves s (record s { vault = vault; disk = disk })

  pub data Reach : Engine Vault Disk → Type 0 where
    starts : (vault : Vault) (disk : Disk) → Reach (with_store vault disk)
    moves : {s t : Engine Vault Disk} → Reach s → Moves s t → Reach t

  send_bundle-IsConsistent :
      (peer : ℕ) (s : Engine Vault Disk)
      → IsConsistent s
      → IsConsistent (send_bundle device peer s).0
  unfolding send_bundle
  send_bundle-IsConsistent peer s h =
      let end = length (gather_offer device s.vault).own_log in
      (
        put-IsAscending peer end s.sent_offsets h.0,
        put-AreTracked peer end s.connected s.sent_offsets h.1,
      )

  connect-IsConsistent :
      (reachable : ℕ → Bool) (peer : ℕ) (s : Engine Vault Disk)
      → IsConsistent s
      → IsConsistent (connect device reachable peer s).0
  unfolding connect
  connect-IsConsistent reachable peer s h = elim (Bool-cases (reachable peer)) [
    | inl t ↦ rw (connect, t) (send_bundle-IsConsistent peer s h)
    | inr f ↦ rw (connect, f) h
  ]

  connect_each-IsConsistent :
      (reachable : ℕ → Bool) (peers : List ℕ) (s : Engine Vault Disk)
      → IsConsistent s
      → IsConsistent (connect_each device reachable peers s).0
  connect_each-IsConsistent reachable [] s h = h
  connect_each-IsConsistent reachable (peer ∷ peers) s h =
      connect_each-IsConsistent reachable peers (connect device reachable peer s).0
        (connect-IsConsistent reachable peer s h)

  meet_each-IsConsistent :
      (reachable : ℕ → Bool) (peers : List (ℕ × List ℕ)) (s : Engine Vault Disk)
      → IsConsistent s
      → IsConsistent (meet_each device reachable peers s).0
  meet_each-IsConsistent reachable [] s h = h
  meet_each-IsConsistent reachable ((peer, key) ∷ peers) s h =
      meet_each-IsConsistent reachable peers (connect device reachable peer s).0
        (connect-IsConsistent reachable peer s h)

  flush_local-IsConsistent :
      (s : Engine Vault Disk) → IsConsistent s → IsConsistent (flush_local device s).0
  unfolding flush_local
  flush_local-IsConsistent s h =
      let end = length (own_log_of device s.vault) in
      (
        advance_all-IsAscending end s.sent_offsets h.0,
        λ p connected.
            let (offset, at) = h.1 p connected in
            (end, find-advance_all p end offset s.sent_offsets at),
      )

  abbrev Consistent : Step Vault Disk → Type 0
  Consistent step = IsConsistent step.0

  roster_imported-Consistent :
      (reachable : ℕ → Bool) (result : Bool × Vault) (s : Engine Vault Disk)
      → IsConsistent s
      → Consistent (roster_imported device reachable result s)
  roster_imported-Consistent reachable (false, vault) s h = h
  roster_imported-Consistent reachable (true, vault) s h =
      let s1 = record s { vault = vault } in
      meet_each-IsConsistent reachable (new_peers device s1) s1 h

  greeted-Consistent :
      (peer : ℕ) (s : Engine Vault Disk)
      → IsConsistent s
      → Consistent (
          send_bundle device peer (record s {
            sent_offsets = ensure_offset peer s.sent_offsets;
            connected = peer ∷ s.connected;
          }))
  unfolding send_bundle
  greeted-Consistent peer s h =
      let end = length (gather_offer device s.vault).own_log in
      let offsets = ensure_offset peer s.sent_offsets in
      let (ascending, tracked) = ensure_offset-AreTracked peer s.connected s.sent_offsets h.0 h.1 in
      let added = put-AreTracked peer end s.connected offsets tracked in
      (
        put-IsAscending peer end offsets ascending,
        λ p present. added p (
            ground (
              arith,
              present,
              contains-insert p peer s.connected,
              contains-insert p peer (peer ∷ s.connected),
            )),
      )

  handle-Consistent :
      (reachable : ℕ → Bool) (from : ℕ) (frame : Frame) (s : Engine Vault Disk)
      → IsConsistent s
      → Consistent (handle device reachable from frame s)
  handle-Consistent reachable from (hello vault) s h =
      on_hello-cases device Consistent s h from vault
        (λ active old. ensure_offset-AreTracked from s.connected s.sent_offsets h.0 h.1)
        (λ active new. greeted-Consistent from s h)
  handle-Consistent reachable from (have doc_version) s h =
      on_have-cases device Consistent s h from doc_version (λ incoming readable active. h)
  handle-Consistent reachable from (ops author jsonl) s h =
      on_ops-cases device Consistent s h author jsonl (λ key. h)
  handle-Consistent reachable from (roster_have authors) s h =
      on_roster_have-cases device Consistent s h from (λ active jsonl. h)
  handle-Consistent reachable from (roster_ops author jsonl) s h =
      on_roster_ops-cases device Consistent s h reachable author jsonl
        (λ key. roster_imported-Consistent reachable _ s h)
  handle-Consistent reachable from ping s h = h
  handle-Consistent reachable from (blob_want hash) s h =
      on_blob_want-cases device Consistent s h from hash (λ active total_len. h)
  handle-Consistent reachable from (blob_data hash bytes) s h =
      on_blob_data-cases device Consistent s h hash bytes (λ disk stored. h)
  handle-Consistent reachable from (keylog_have authors) s h =
      on_keylog_have-cases device Consistent s h from (λ active jsonl logs. h)
  handle-Consistent reachable from (keylog_ops author jsonl) s h =
      on_keylog_ops-cases device Consistent s h author jsonl (λ vault. h)
  handle-Consistent reachable from (snapshot_have ids) s h =
      on_snapshot_have-cases device Consistent s h from ids (λ active held. h)
  handle-Consistent reachable from (snapshot_want id) s h =
      on_snapshot_want-cases device Consistent s h from id (λ active framed. h)
  handle-Consistent reachable from (snapshot_data framed) s h =
      on_snapshot_data-cases device Consistent s h from framed (λ active result. h)
  handle-Consistent reachable from (blob_chunk hash offset total_len bytes) s h =
      on_blob_chunk-cases device Consistent s h hash offset total_len bytes
        (λ disk incoming stored. h)

  broadcast-Consistent :
      (s : Engine Vault Disk)
      → IsConsistent s
      → Consistent (broadcast_own_roster device s) × Consistent (broadcast_own_keylog device s)
  unfolding broadcast_own_roster broadcast_own_keylog
  broadcast-Consistent s h = (h, h)

  changed_roster-Consistent :
      (result : Bool × Vault) (s : Engine Vault Disk)
      → IsConsistent s
      → Consistent (changed_roster device result s).1
  changed_roster-Consistent (true, vault) s h =
      (broadcast-Consistent (record s { vault = vault }) h).0
  changed_roster-Consistent (false, vault) s h = h

  counted_keylog-Consistent :
      (result : Option ℕ × Vault) (s : Engine Vault Disk)
      → IsConsistent s
      → Consistent (counted_keylog device result s).1
  counted_keylog-Consistent (none, vault) s h = h
  counted_keylog-Consistent (some count, vault) s h = elim (Bool-cases (ltb 0 count)) [
    | inl t ↦ rw t (broadcast-Consistent (record s { vault = vault }) h).1
    | inr f ↦ rw f h
  ]

  edit_text-Consistent :
      (id : List ℕ) (pos : ℕ) (text : List ℕ) (s : Engine Vault Disk)
      → IsConsistent s
      → Consistent (edit_text device id pos text s).1
  unfolding edit_text
  edit_text-Consistent id pos text s h =
      elim (Bool-cases ((device.calls.edit_text id pos text s.vault).0)) [
        | inl t ↦ rw (edit_text, t) (flush_local-IsConsistent _ h)
        | inr f ↦ rw (edit_text, f) h
      ]

  request_missing_blobs-Consistent :
      (s : Engine Vault Disk) → IsConsistent s → Consistent (request_missing_blobs device s)
  unfolding request_missing_blobs
  request_missing_blobs-Consistent s h =
      elim (Bool-cases (is_empty (missing_blob_hashes device s.vault s.disk))) [
        | inl t ↦ rw (request_missing_blobs, t) h
        | inr f ↦ rw (request_missing_blobs, f) h
      ]

  add_peer-Consistent :
      (peer : ℕ) (key : List ℕ) (role : Role) (s : Engine Vault Disk)
      → IsConsistent s
      → Consistent (add_peer device peer key role s).1
  unfolding add_peer
  add_peer-Consistent peer key role s h =
      let added = device.calls.add_peer peer key role s.vault in
      elim (Bool-cases added.0) [
        | inl t ↦ rw (add_peer, t) (broadcast-Consistent (record s { vault = added.1 }) h).0
        | inr f ↦ rw (add_peer, f) h
      ]

  revoke_peer-Consistent :
      (peer : ℕ) (key : List ℕ) (s : Engine Vault Disk)
      → IsConsistent s
      → Consistent (revoke_peer device peer key s).1
  unfolding revoke_peer
  revoke_peer-Consistent peer key s h =
      let gone = device.calls.revoke_peer peer key s.vault in
      elim (Bool-cases gone.0) [
        | inl t ↦
            rw (revoke_peer, t)
              (broadcast-Consistent (forget device peer (record s { vault = gone.1 })) (
                delete-IsAscending peer s.sent_offsets h.0,
                delete-AreTracked peer s.connected s.sent_offsets h.1,
              )).0
        | inr f ↦ rw (revoke_peer, f) h
      ]

  rotate_epoch-Consistent :
      (paper : Option (List ℕ)) (s : Engine Vault Disk)
      → IsConsistent s
      → Consistent (rotate_epoch device paper s).1
  unfolding rotate_epoch
  rotate_epoch-Consistent paper s h =
      let rotated = device.calls.rotate_epoch paper s.vault in
      elim (Option-cases rotated.0) [
        | inl e ↦ rw (rotate_epoch, e) h
        | inr (epoch, e) ↦
            rw (rotate_epoch, e) (broadcast-Consistent (record s { vault = rotated.1 }) h).1
      ]

  Moves-IsConsistent : {s t : Engine Vault Disk} → Moves s t → IsConsistent s → IsConsistent t
  unfolding set_role set_device_name recover_with_paper backfill_wraps reconnect_active
  Moves-IsConsistent {s} (handles reachable peer frame) h =
      handle-Consistent reachable peer frame s h
  Moves-IsConsistent {s} (connects reachable peer) h = connect-IsConsistent reachable peer s h
  Moves-IsConsistent {s} (reconnects reachable) h =
      connect_each-IsConsistent reachable (active_peers device s.vault) s h
  Moves-IsConsistent {s} flushes h = flush_local-IsConsistent s h
  Moves-IsConsistent {s} (edits id pos text) h = edit_text-Consistent id pos text s h
  Moves-IsConsistent {s} requests h = request_missing_blobs-Consistent s h
  Moves-IsConsistent {s} (adds peer key role) h = add_peer-Consistent peer key role s h
  Moves-IsConsistent {s} (revokes peer key) h = revoke_peer-Consistent peer key s h
  Moves-IsConsistent {s} (sets_role peer key role) h =
      changed_roster-Consistent (device.calls.set_role peer key role s.vault) s h
  Moves-IsConsistent {s} (names name) h =
      changed_roster-Consistent (device.calls.set_device_name name s.vault) s h
  Moves-IsConsistent {s} (rotates paper) h = rotate_epoch-Consistent paper s h
  Moves-IsConsistent {s} (recovers phrase) h =
      counted_keylog-Consistent (device.calls.recover_with_paper phrase s.vault) s h
  Moves-IsConsistent {s} backfills h =
      counted_keylog-Consistent (device.calls.backfill_wraps s.vault) s h
  Moves-IsConsistent {s} (shares vault disk) h = h

  -- In every state that an engine comes to from its start, by frames that come in, by calls of its
  -- embedder and by changes of the shared store, the offsets are a map, ascending in the peers, and
  -- every connected peer has one, so that the live push reaches him.
  pub Reach-IsConsistent : {s : Engine Vault Disk} → Reach s → IsConsistent s
  Reach-IsConsistent (starts vault disk) = (tt, λ p connected. absurd (ground (arith, connected)))
  Reach-IsConsistent (moves reached move) = Moves-IsConsistent move (Reach-IsConsistent reached)
