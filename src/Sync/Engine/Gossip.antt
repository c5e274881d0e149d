-- ===== src/Sync/Engine/Gossip.antt =====
-- The handlers of `Engine::handle` for greetings, versions and logs:
-- crates/roam-sync-core/src/engine.rs.
use roam.Prelude.{
  ℕ, Bool, true, false, not, ◌&&◌, Option, none, some, List, [], ◌∷◌, ◌++◌, map, select, ◌==◌,
  if◌then◌else◌,
}
use roam.Prelude.Maps.{contains, insert}
use roam.Prelude.Keyed.{find, put, number_key, text_key}
use roam.Prelude.Trim.{same_text}
use roam.Sync.Frame.{roster_ops, keylog_ops}
use roam.Sync.Engine.{
  Device, Engine, Effect, send, add_route, changed, Step, or_default, is_active, key_for,
  other_active, held_keylogs,
}
use roam.Sync.Engine.Offers.{
  send_logs, send_bundle, connect, push_logs, offer_snapshots, ensure_offset,
}

abbrev pub signal_if : Bool → List Effect
signal_if true = changed ∷ []
signal_if false = []

-- Whether the bytes of two versions differ.
abbrev pub differ : List ℕ → List ℕ → Bool
differ before after = not (same_text before after)

module _ {Vault Keychain Version Disk : Type 0} (device : Device Vault Keychain Version Disk) where
  unfoldable pub on_hello : (peer : ℕ) (vault : List ℕ) → Engine Vault Disk → Step Vault Disk
  on_hello peer vault s =
      let s1 = record s { sent_offsets = ensure_offset peer s.sent_offsets } in
      let s2 = record s1 { connected = insert peer s.connected } in
      if not (same_text vault device.vault_id)
      then (s, [])
      else if not (is_active device peer s.vault)
      then (s, [])
      else if contains peer s.connected
      then (s1, [])
      else send_bundle device peer s2

  -- Whether a version that comes in takes the place of the one that is kept.
  unfoldable pub replaces : (incoming : Version) → Option (List ℕ) → Bool
  replaces incoming none = true
  replaces incoming (some prev) = elim (device.versions.from_bytes prev) [
    | none ↦ true
    | some prev_version ↦ device.versions.includes incoming prev_version
  ]

  unfoldable pub ack :
      (peer : ℕ) (doc_version : List ℕ) → Version → List (ℕ × List ℕ) → List (ℕ × List ℕ)
  ack peer doc_version incoming acked =
      if replaces incoming (find peer acked) then put peer doc_version acked else acked

  abbrev pub on_version :
      (peer : ℕ) (doc_version : List ℕ) → Version → Engine Vault Disk → Step Vault Disk
  on_version peer doc_version incoming s =
      if not (is_active device peer s.vault) then (s, []) else (
        record s { acked_versions = ack peer doc_version incoming s.acked_versions },
        push_logs device peer s.vault ++ offer_snapshots device peer incoming s.vault,
      )

  unfoldable pub on_have : (peer : ℕ) (doc_version : List ℕ) → Engine Vault Disk → Step Vault Disk
  on_have peer doc_version s = elim (device.versions.from_bytes doc_version) [
    | none ↦ (s, [])
    | some incoming ↦ on_version peer doc_version incoming s
  ]

  -- The signal is given when the call succeeds and the version of the document has changed.
  abbrev pub applied : Bool × Vault → Engine Vault Disk → Step Vault Disk
  applied result s =
      let before = device.calls.doc_version_bytes s.vault in
      let after = device.calls.doc_version_bytes result.1 in
      (record s { vault = result.1 }, signal_if (result.0 && differ before after))

  unfoldable pub on_ops : (author : ℕ) (jsonl : List ℕ) → Engine Vault Disk → Step Vault Disk
  on_ops author jsonl s =
      if author == device.peer_id then (s, []) else elim (key_for device author s.vault) [
        | none ↦ (s, [])
        | some key ↦ applied (device.calls.apply_peer_ops author key jsonl s.vault) s
      ]

  abbrev pub new_peers : Engine Vault Disk → List (ℕ × List ℕ)
  new_peers s =
      map (λ p. (p.peer_id, p.verifying_key))
        (select (λ p. other_active device p && not (contains p.peer_id s.connected))
          (device.calls.roster s.vault))

  abbrev pub meet_each :
      (reachable : ℕ → Bool) → List (ℕ × List ℕ) → Engine Vault Disk → Step Vault Disk
  meet_each reachable [] s = (s, [])
  meet_each reachable ((peer, key) ∷ peers) s =
      let first = connect device reachable peer s in
      let rest = meet_each reachable peers first.0 in
      (rest.0, add_route peer key ∷ (first.1 ++ rest.1))

  abbrev pub roster_imported :
      (reachable : ℕ → Bool) → Bool × Vault → Engine Vault Disk → Step Vault Disk
  roster_imported reachable result s =
      let s1 = record s { vault = result.1 } in
      if result.0 then meet_each reachable (new_peers s1) s1 else (s1, [])

  unfoldable pub on_roster_ops :
      (reachable : ℕ → Bool) (author : ℕ) (jsonl : List ℕ) → Engine Vault Disk → Step Vault Disk
  on_roster_ops reachable author jsonl s =
      if author == device.peer_id then (s, []) else elim (key_for device author s.vault) [
        | none ↦ (s, [])
        | some key ↦
            roster_imported reachable (device.calls.import_roster author key jsonl s.vault) s
      ]

  unfoldable pub on_roster_have : (peer : ℕ) → Engine Vault Disk → Step Vault Disk
  on_roster_have peer s =
      let own_roster = or_default (device.calls.export_own_roster s.vault) in
      if not (is_active device peer s.vault)
      then (s, [])
      else (s, send peer (roster_ops device.peer_id own_roster) ∷ [])

  unfoldable pub on_keylog_ops : (author : ℕ) (jsonl : List ℕ) → Engine Vault Disk → Step Vault Disk
  on_keylog_ops author jsonl s =
      if author == device.peer_id then (s, []) else elim (key_for device author s.vault) [
        | none ↦ (s, [])
        | some key ↦
            (record s { vault = (device.calls.import_keylog author key jsonl s.vault).1 }, [])
      ]

  unfoldable pub on_keylog_have : (peer : ℕ) → Engine Vault Disk → Step Vault Disk
  on_keylog_have peer s =
      let own_keylog = or_default (device.calls.export_own_keylog s.vault) in
      if not (is_active device peer s.vault) then (s, []) else (
        s,
        send peer (keylog_ops device.peer_id own_keylog)
            ∷ send_logs keylog_ops peer (held_keylogs device s.vault),
      )
