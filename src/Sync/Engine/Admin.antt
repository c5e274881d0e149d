-- ===== src/Sync/Engine/Admin.antt =====
-- Vault administration by the engine: crates/roam-sync-core/src/engine.rs. A call of the store that
-- fails is the caller's error, and nothing is sent.
use roam.Prelude.{
  ℕ, Bool, true, false, not, Option, none, some, List, [], ◌∷◌, select, ltb, ◌==◌, if◌then◌else◌,
}
use roam.Prelude.Keyed.{delete, number_key}
use roam.Roster.Entry.{Role}
use roam.Sync.Engine.{Device, Engine, add_route, remove_route, Step}
use roam.Sync.Engine.Offers.{broadcast_own_roster, broadcast_own_keylog}

-- `HashSet::remove`
abbrev pub remove : ℕ → List ℕ → List ℕ
remove a = select (λ x. not (a == x))

module _ {Vault Keychain Version Disk : Type 0} (device : Device Vault Keychain Version Disk) where
  -- A change of the roster by the store, and its broadcast.
  abbrev pub changed_roster : Bool × Vault → Engine Vault Disk → Bool × Step Vault Disk
  changed_roster result s =
      let s1 = record s { vault = result.1 } in
      if result.0 then (true, broadcast_own_roster device s1) else (false, (s1, []))

  unfoldable pub add_peer :
      (peer : ℕ) (key : List ℕ) → Role → Engine Vault Disk → Bool × Step Vault Disk
  add_peer peer key role s =
      let added = device.calls.add_peer peer key role s.vault in
      let s1 = record s { vault = added.1 } in
      let sent = broadcast_own_roster device s1 in
      if added.0 then (true, (sent.0, add_route peer key ∷ sent.1)) else (false, (s1, []))

  -- The bookkeeping of the peer goes.
  abbrev pub forget : (peer : ℕ) → Engine Vault Disk → Engine Vault Disk
  forget peer s = record s {
    connected = remove peer s.connected;
    sent_offsets = delete peer s.sent_offsets;
    acked_versions = delete peer s.acked_versions;
  }

  unfoldable pub revoke_peer :
      (peer : ℕ) (key : List ℕ) → Engine Vault Disk → Bool × Step Vault Disk
  revoke_peer peer key s =
      let gone = device.calls.revoke_peer peer key s.vault in
      let s1 = record s { vault = gone.1 } in
      let sent = broadcast_own_roster device (forget peer s1) in
      if gone.0 then (true, (sent.0, remove_route peer ∷ sent.1)) else (false, (s1, []))

  unfoldable pub set_role :
      (peer : ℕ) (key : List ℕ) → Role → Engine Vault Disk → Bool × Step Vault Disk
  set_role peer key role s = changed_roster (device.calls.set_role peer key role s.vault) s

  unfoldable pub set_device_name : (name : List ℕ) → Engine Vault Disk → Bool × Step Vault Disk
  set_device_name name s = changed_roster (device.calls.set_device_name name s.vault) s

  unfoldable pub rotate_epoch :
      (paper_public : Option (List ℕ)) → Engine Vault Disk → Option (List ℕ) × Step Vault Disk
  rotate_epoch paper_public s =
      let rotated = device.calls.rotate_epoch paper_public s.vault in
      let s1 = record s { vault = rotated.1 } in
      elim rotated.0 [
        | none ↦ (none, (s1, []))
        | some epoch ↦ (some epoch, broadcast_own_keylog device s1)
      ]

  -- A count, and a broadcast if it is not zero: `recover_with_paper` and `backfill_wraps`.
  abbrev pub counted_keylog : Option ℕ × Vault → Engine Vault Disk → Option ℕ × Step Vault Disk
  counted_keylog result s =
      let s1 = record s { vault = result.1 } in
      elim result.0 [
        | none ↦ (none, (s1, []))
        | some count ↦
            if ltb 0 count
            then (some count, broadcast_own_keylog device s1)
            else (some count, (s1, []))
      ]

  unfoldable pub recover_with_paper :
      (phrase : List ℕ) → Engine Vault Disk → Option ℕ × Step Vault Disk
  recover_with_paper phrase s = counted_keylog (device.calls.recover_with_paper phrase s.vault) s

  unfoldable pub backfill_wraps : Engine Vault Disk → Option ℕ × Step Vault Disk
  backfill_wraps s = counted_keylog (device.calls.backfill_wraps s.vault) s
