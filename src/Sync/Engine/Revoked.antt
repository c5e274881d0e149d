-- ===== src/Sync/Engine/Revoked.antt =====
-- Revoking a peer removes him from the engine's bookkeeping.
use roam.Prelude.{
  ℕ, true, false, not, none, List, [], ◌∷◌, ◌==◌, ==_self, if◌then◌else◌, ◌≡◌, refl, arith, ◌∙◌,
}
use roam.Prelude.Maps.{contains}
use roam.Prelude.Keyed.{find, number_key, find-delete}
use roam.Sync.Frame.{Frame}
use roam.Sync.Engine.{Device, Engine, send}
use roam.Sync.Engine.Offers.{to_each, broadcast_own_roster}
use roam.Sync.Engine.Admin.{remove, revoke_peer}
use roam.Sync.Engine.Gate.{AllGoTo}

contains-remove_iff :
    (x p : ℕ) (xs : List ℕ) → contains x (remove p xs) ≡ (if x == p then false else contains x xs)
contains-remove_iff x p [] = ground arith
contains-remove_iff x p (y ∷ xs) = ground (arith, contains-remove_iff x p xs)

to_each-AllGoTo :
    (peer : ℕ) (frame : Frame) (peers : List ℕ)
    → contains peer peers ≡ false
    → AllGoTo (λ p. not (p == peer)) (to_each (λ p. send p frame) peers)
to_each-AllGoTo peer frame [] absent = tt
to_each-AllGoTo peer frame (p ∷ peers) absent =
    (ground (arith, absent), to_each-AllGoTo peer frame peers (ground (arith, absent)))

module _ {Vault Keychain Version Disk : Type 0} (device : Device Vault Keychain Version Disk) where
  -- The peer is no one's business any more, and for all others nothing has changed.
  abbrev pub IsForgotten : (peer : ℕ) (old new : Engine Vault Disk) → Type 0
  IsForgotten peer old new =
      (other : ℕ)
      → (contains other new.connected
          ≡ (if other == peer then false else contains other old.connected))
        × (find other new.sent_offsets
            ≡ (if other == peer then none else find other old.sent_offsets))
        × (find other new.acked_versions
            ≡ (if other == peer then none else find other old.acked_versions))

  -- When the store revokes a peer, the engine forgets him: he is not connected, and has neither an
  -- offset nor an acknowledged version, while those of all other peers stay; and no frame is sent
  -- to him. When the store refuses, the bookkeeping stays and nothing is sent at all.
  pub revoke_peer-IsForgotten :
      (peer : ℕ) (key : List ℕ) (s : Engine Vault Disk)
      → ((device.calls.revoke_peer peer key s.vault).0 ≡ true
          → ((revoke_peer device peer key s).0 ≡ true)
            × IsForgotten peer s (revoke_peer device peer key s).1.0
            × AllGoTo (λ p. not (p == peer)) (revoke_peer device peer key s).1.1)
        × ((device.calls.revoke_peer peer key s.vault).0 ≡ false
            → ((revoke_peer device peer key s).0 ≡ false)
              × (((revoke_peer device peer key s).1.0).connected ≡ s.connected)
              × (((revoke_peer device peer key s).1.0).sent_offsets ≡ s.sent_offsets)
              × (((revoke_peer device peer key s).1.0).acked_versions ≡ s.acked_versions)
              × ((revoke_peer device peer key s).1.1 ≡ []))
  unfolding revoke_peer broadcast_own_roster
  revoke_peer-IsForgotten peer key s = (
    λ done.
        rw (revoke_peer, done)
          (
            refl,
            λ other. (
              contains-remove_iff other peer s.connected,
              find-delete other peer s.sent_offsets,
              find-delete other peer s.acked_versions,
            ),
            (
              refl,
              to_each-AllGoTo peer _ (remove peer s.connected)
                  (contains-remove_iff peer peer s.connected ∙ rw (==_self peer) refl),
            ),
          ),
    λ refused. rw (revoke_peer, refused) (refl, refl, refl, refl, refl),
  )
