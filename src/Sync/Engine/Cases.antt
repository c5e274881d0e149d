-- ===== src/Sync/Engine/Cases.antt =====
-- How each handler of a frame can go: a property of a step holds of the handler if it holds of each
-- of its outcomes.
use roam.Prelude.{
  ℕ, Bool, true, false, not, ◌||◌, none, some, List, [], ◌∷◌, ◌++◌, length, ltb, ◌==◌, ◌≡◌, inl,
  inr, Bool-cases, Option-cases,
}
use roam.Prelude.Maps.{contains}
use roam.Prelude.Keyed.{find, put, delete, text_key}
use roam.Prelude.Outcomes.{Outcome-cases}
use roam.Prelude.Trim.{same_text}
use roam.Storage.Blob.{has, size, write_incoming_chunk}
use roam.Sync.Frame.{roster_ops, keylog_ops, snapshot_data}
use roam.Sync.Chunks.{
  IncomingBlob, max_incoming_blob_bytes, chunk_is_admissible, count_chunk, entry_or_new,
  is_complete,
}
use roam.Sync.Engine.{Device, Engine, send, Step, is_active, key_for, fileset_wants}
use roam.Sync.Engine.Offers.{send_logs, send_bundle, ensure_offset, push_logs, offer_snapshots}
use roam.Sync.Engine.Gossip.{
  signal_if, on_hello, ack, on_have, on_version, applied, on_ops, roster_imported, on_roster_ops,
  on_roster_have, on_keylog_ops, on_keylog_have,
}
use roam.Sync.Engine.Blobs.{serve, on_blob_want, on_blob_data, settle, chunk_written, on_blob_chunk}
use roam.Sync.Engine.Handle.{want_each, on_snapshot_have, on_snapshot_want, on_snapshot_data}

module _ {Vault Keychain Version Disk : Type 0} (device : Device Vault Keychain Version Disk) where
  module _ (P : Step Vault Disk → Type 0) (s : Engine Vault Disk) (nothing : P (s, [])) where
    pub on_hello-cases :
        (peer : ℕ) (vault : List ℕ)
        → (is_active device peer s.vault ≡ true
            → contains peer s.connected ≡ true
            → P (record s { sent_offsets = ensure_offset peer s.sent_offsets }, []))
        → (is_active device peer s.vault ≡ true
            → contains peer s.connected ≡ false
            → P (
                send_bundle device peer (record s {
                  sent_offsets = ensure_offset peer s.sent_offsets;
                  connected = peer ∷ s.connected;
                })))
        → P (on_hello device peer vault s)
    unfolding on_hello
    on_hello-cases peer vault again first = elim (Bool-cases (same_text vault device.vault_id)) [
      | inr n ↦ rw (on_hello, n) nothing
      | inl ours ↦ elim (Bool-cases (is_active device peer s.vault)) [
        | inr n ↦ rw (on_hello, ours, n) nothing
        | inl active ↦ elim (Bool-cases (contains peer s.connected)) [
          | inl old ↦ rw (on_hello, ours, active, old) (again active old)
          | inr new ↦ rw (on_hello, ours, active, new) (first active new)
        ]
      ]
    ]

    pub on_have-cases :
        (peer : ℕ) (doc_version : List ℕ)
        → ((incoming : Version)
            → device.versions.from_bytes doc_version ≡ some incoming
            → is_active device peer s.vault ≡ true
            → P (
              record s { acked_versions = ack device peer doc_version incoming s.acked_versions },
              push_logs device peer s.vault ++ offer_snapshots device peer incoming s.vault,
            ))
        → P (on_have device peer doc_version s)
    unfolding on_have
    on_have-cases peer doc_version known =
        elim (Option-cases (device.versions.from_bytes doc_version)) [
          | inl e ↦ rw (on_have, e) nothing
          | inr (incoming, e) ↦ elim (Bool-cases (is_active device peer s.vault)) [
            | inr n ↦ rw (on_have, e, on_version, n) nothing
            | inl active ↦ rw (on_have, e, on_version, active) (known incoming e active)
          ]
        ]

    pub on_ops-cases :
        (author : ℕ) (jsonl : List ℕ)
        → ((key : List ℕ)
            → P (applied device (device.calls.apply_peer_ops author key jsonl s.vault) s))
        → P (on_ops device author jsonl s)
    unfolding on_ops
    on_ops-cases author jsonl known = elim (Bool-cases (author == device.peer_id)) [
      | inl t ↦ rw (on_ops, t) nothing
      | inr f ↦ elim (Option-cases (key_for device author s.vault)) [
        | inl e ↦ rw (on_ops, f, e) nothing
        | inr (key, e) ↦ rw (on_ops, f, e) (known key)
      ]
    ]

    pub on_roster_ops-cases :
        (reachable : ℕ → Bool) (author : ℕ) (jsonl : List ℕ)
        → ((key : List ℕ)
            → P (
                roster_imported device reachable
                  (device.calls.import_roster author key jsonl s.vault)
                  s))
        → P (on_roster_ops device reachable author jsonl s)
    unfolding on_roster_ops
    on_roster_ops-cases reachable author jsonl known =
        elim (Bool-cases (author == device.peer_id)) [
          | inl t ↦ rw (on_roster_ops, t) nothing
          | inr f ↦ elim (Option-cases (key_for device author s.vault)) [
            | inl e ↦ rw (on_roster_ops, f, e) nothing
            | inr (key, e) ↦ rw (on_roster_ops, f, e) (known key)
          ]
        ]

    pub on_keylog_ops-cases :
        (author : ℕ) (jsonl : List ℕ)
        → ((vault : Vault) → P (record s { vault = vault }, []))
        → P (on_keylog_ops device author jsonl s)
    unfolding on_keylog_ops
    on_keylog_ops-cases author jsonl known = elim (Bool-cases (author == device.peer_id)) [
      | inl t ↦ rw (on_keylog_ops, t) nothing
      | inr f ↦ elim (Option-cases (key_for device author s.vault)) [
        | inl e ↦ rw (on_keylog_ops, f, e) nothing
        | inr (key, e) ↦ rw (on_keylog_ops, f, e) (known _)
      ]
    ]

    pub on_roster_have-cases :
        (peer : ℕ)
        → (is_active device peer s.vault ≡ true
            → (jsonl : List ℕ) → P (s, send peer (roster_ops device.peer_id jsonl) ∷ []))
        → P (on_roster_have device peer s)
    unfolding on_roster_have
    on_roster_have-cases peer known = elim (Bool-cases (is_active device peer s.vault)) [
      | inr n ↦ rw (on_roster_have, n) nothing
      | inl active ↦ rw (on_roster_have, active) (known active _)
    ]

    pub on_keylog_have-cases :
        (peer : ℕ)
        → (is_active device peer s.vault ≡ true
            → (jsonl : List ℕ) (logs : List (ℕ × List ℕ))
            → P (s, send peer (keylog_ops device.peer_id jsonl) ∷ send_logs keylog_ops peer logs))
        → P (on_keylog_have device peer s)
    unfolding on_keylog_have
    on_keylog_have-cases peer known = elim (Bool-cases (is_active device peer s.vault)) [
      | inr n ↦ rw (on_keylog_have, n) nothing
      | inl active ↦ rw (on_keylog_have, active) (known active _ _)
    ]

    pub on_blob_want-cases :
        (peer : ℕ) (hash : List ℕ)
        → (is_active device peer s.vault ≡ true
            → (total_len : ℕ) → P (s, serve device peer hash total_len s.disk))
        → P (on_blob_want device peer hash s)
    unfolding on_blob_want
    on_blob_want-cases peer hash known = elim (Bool-cases (is_active device peer s.vault)) [
      | inr n ↦ rw (on_blob_want, n) nothing
      | inl active ↦ elim (Outcome-cases (size device.blobs hash s.disk)) [
        | inr (e, failed) ↦ rw (on_blob_want, active, failed) nothing
        | inl (none, absent) ↦ rw (on_blob_want, active, absent) nothing
        | inl (some total_len, there) ↦ rw (on_blob_want, active, there) (known active total_len)
      ]
    ]

    pub on_blob_data-cases :
        (hash bytes : List ℕ)
        → ((disk : Disk) (stored : Bool) → P (record s { disk = disk }, signal_if stored))
        → P (on_blob_data device hash bytes s)
    unfolding on_blob_data
    on_blob_data-cases hash bytes known = elim (Bool-cases (same_text (device.blake3 bytes) hash)) [
      | inr n ↦ rw (on_blob_data, n) nothing
      | inl t ↦
          elim (Bool-cases
            (has device.blobs hash s.disk || not (fileset_wants device hash s.vault))) [
              | inl refused ↦ rw (on_blob_data, t, refused) nothing
              | inr wanted ↦ rw (on_blob_data, t, wanted) (known _ _)
            ]
    ]

    -- A chunk changes the disk and the entries of the blobs that come in.
    pub on_blob_chunk-cases :
        (hash : List ℕ) (offset total_len : ℕ) (bytes : List ℕ)
        → ((disk : Disk) (incoming : List (List ℕ × IncomingBlob)) (stored : Bool)
            → P (record s { disk = disk; incoming_blobs = incoming }, signal_if stored))
        → P (on_blob_chunk device hash offset total_len bytes s)
    unfolding on_blob_chunk
    on_blob_chunk-cases hash offset total_len bytes known =
        let written = write_incoming_chunk device.blobs hash offset total_len bytes s.disk in
        let entry =
          count_chunk offset total_len (length bytes)
            (entry_or_new total_len (find hash s.incoming_blobs)) in
        elim (Bool-cases (ltb max_incoming_blob_bytes total_len)) [
          | inl t ↦ rw (on_blob_chunk, t) nothing
          | inr small ↦ elim (Bool-cases (chunk_is_admissible offset total_len (length bytes))) [
            | inr n ↦ rw (on_blob_chunk, small, n) nothing
            | inl good ↦
                elim (Bool-cases
                  (has device.blobs hash s.disk || not (fileset_wants device hash s.vault))) [
                    | inl refused ↦ rw (on_blob_chunk, small, good, refused) nothing
                    | inr wanted ↦ elim (Outcome-cases written.0) [
                      | inr (e, failed) ↦
                          rw (on_blob_chunk, small, good, wanted, failed)
                            (known written.1 s.incoming_blobs false)
                      | inl (done, fine) ↦ elim (Bool-cases (is_complete entry)) [
                        | inr more ↦
                            rw (on_blob_chunk, small, good, wanted, fine, chunk_written, more)
                              (known written.1 (put hash entry s.incoming_blobs) false)
                        | inl full ↦ elim (Bool-cases (has device.blobs hash written.1)) [
                          | inl old ↦
                              rw
                                (
                                  on_blob_chunk, small, good, wanted, fine, chunk_written, full,
                                  settle, old,
                                )
                                (known _ (delete hash s.incoming_blobs) false)
                          | inr new ↦
                              rw
                                (
                                  on_blob_chunk, small, good, wanted, fine, chunk_written, full,
                                  settle, new,
                                )
                                (known _ (delete hash s.incoming_blobs) _)
                        ]
                      ]
                    ]
                  ]
          ]
        ]

    pub on_snapshot_have-cases :
        (peer : ℕ) (ids : List (List ℕ))
        → (is_active device peer s.vault ≡ true
            → (held : List (List ℕ)) → P (s, want_each device peer held ids))
        → P (on_snapshot_have device peer ids s)
    unfolding on_snapshot_have
    on_snapshot_have-cases peer ids known = elim (Bool-cases (is_active device peer s.vault)) [
      | inr n ↦ rw (on_snapshot_have, n) nothing
      | inl active ↦ rw (on_snapshot_have, active) (known active _)
    ]

    pub on_snapshot_want-cases :
        (peer : ℕ) (id : List ℕ)
        → (is_active device peer s.vault ≡ true
            → (framed : List ℕ) → P (s, send peer (snapshot_data framed) ∷ []))
        → P (on_snapshot_want device peer id s)
    unfolding on_snapshot_want
    on_snapshot_want-cases peer id known = elim (Bool-cases (is_active device peer s.vault)) [
      | inr n ↦ rw (on_snapshot_want, n) nothing
      | inl active ↦ elim (Option-cases (device.calls.load_snapshot_object id s.vault)) [
        | inl e ↦ rw (on_snapshot_want, active, e) nothing
        | inr (framed, e) ↦ rw (on_snapshot_want, active, e) (known active framed)
      ]
    ]

    pub on_snapshot_data-cases :
        (peer : ℕ) (framed : List ℕ)
        → (is_active device peer s.vault ≡ true
            → (result : Bool × Vault) → P (applied device result s))
        → P (on_snapshot_data device peer framed s)
    unfolding on_snapshot_data
    on_snapshot_data-cases peer framed known = elim (Bool-cases (is_active device peer s.vault)) [
      | inr n ↦ rw (on_snapshot_data, n) nothing
      | inl active ↦ elim (Option-cases (device.calls.keychain s.vault)) [
        | inl e ↦ rw (on_snapshot_data, active, e) nothing
        | inr (kc, e) ↦ rw (on_snapshot_data, active, e) (known active _)
      ]
    ]
