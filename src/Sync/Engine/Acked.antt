-- ===== src/Sync/Engine/Acked.antt =====
-- What a peer has acknowledged is never lowered.
use roam.Prelude.{
  ℕ, Bool, true, false, Option, none, some, List, [], ◌∷◌, ◌==◌, ==→eq, ◌≡◌, refl, arith, ◌∙◌, ap,
  inl, inr, Bool-cases, Option-cases,
}
use roam.Prelude.Keyed.{find, number_key, find-put}
use roam.Sync.Frame.{
  Frame, hello, have, ops, roster_have, roster_ops, ping, blob_want, blob_data, keylog_have,
  keylog_ops, snapshot_have, snapshot_want, snapshot_data, blob_chunk,
}
use roam.Sync.Engine.{Device, Engine, Step}
use roam.Sync.Engine.Offers.{send_bundle, connect}
use roam.Sync.Engine.Gossip.{replaces, ack, new_peers, meet_each, roster_imported}
use roam.Sync.Engine.Handle.{Arrival, handle, run}
use roam.Sync.Engine.Cases.{
  on_hello-cases, on_have-cases, on_ops-cases, on_roster_have-cases, on_roster_ops-cases,
  on_blob_want-cases, on_blob_data-cases, on_keylog_have-cases, on_keylog_ops-cases,
  on_snapshot_have-cases, on_snapshot_want-cases, on_snapshot_data-cases, on_blob_chunk-cases,
}

module _ {Vault Keychain Version Disk : Type 0} (device : Device Vault Keychain Version Disk) where
  -- Versions include themselves, and what an included one includes.
  abbrev pub AreOrdered : Type 0
  AreOrdered =
      ((v : Version) → device.versions.includes v v ≡ true)
      × ((u v w : Version)
          → device.versions.includes u v ≡ true
          → device.versions.includes v w ≡ true
          → device.versions.includes u w ≡ true)

  -- The version that is kept of a peer, if it can be read.
  abbrev pub version_of : Option (List ℕ) → Option Version
  version_of none = none
  version_of (some bytes) = device.versions.from_bytes bytes

  abbrev pub version_in : (peer : ℕ) → List (ℕ × List ℕ) → Option Version
  version_in peer acked = version_of (find peer acked)

  abbrev pub Grows : (peer : ℕ) (old new : List (ℕ × List ℕ)) → Type 0
  Grows peer old new =
      (before : Version)
      → version_in peer old ≡ some before
      → (after : Version) × (version_in peer new ≡ some after)
        × (device.versions.includes after before ≡ true)

  module _ (ordered : AreOrdered) (peer : ℕ) where
    same-Grows : (old new : List (ℕ × List ℕ)) → new ≡ old → Grows peer old new
    same-Grows old new same before kept =
        (before, ap (version_in peer) same ∙ kept, ordered.0 before)

    Grows-trans : (a b c : List (ℕ × List ℕ)) → Grows peer a b → Grows peer b c → Grows peer a c
    Grows-trans a b c first second before kept =
        let (middle, at_b, over) = first before kept in
        let (after, at_c, over_middle) = second middle at_b in
        (after, at_c, ordered.1 after middle before over_middle over)

    replaces-includes :
        (incoming before : Version) (acked : List (ℕ × List ℕ))
        → version_in peer acked ≡ some before
        → replaces device incoming (find peer acked) ≡ true
        → device.versions.includes incoming before ≡ true
    unfolding replaces
    replaces-includes incoming before acked kept replaced = elim (Option-cases (find peer acked)) [
      | inl e ↦ absurd (ground (arith, e, kept))
      | inr (bytes, e) ↦ elim (Option-cases (device.versions.from_bytes bytes)) [
        | inl f ↦ absurd (ground (arith, e, f, kept))
        | inr (prev, f) ↦
            let same : prev ≡ before = ground (arith, e, f, kept) in
            rw (← same) (ground (arith, e, f, replaced))
      ]
    ]

    ack-Grows :
        (from : ℕ) (doc_version : List ℕ) (incoming : Version) (acked : List (ℕ × List ℕ))
        → device.versions.from_bytes doc_version ≡ some incoming
        → Grows peer acked (ack device from doc_version incoming acked)
    unfolding ack
    ack-Grows from doc_version incoming acked readable =
        elim (Bool-cases (replaces device incoming (find from acked))) [
          | inr f ↦ rw f (same-Grows acked acked refl)
          | inl t ↦ rw t (elim (Bool-cases (peer == from)) [
            | inl e ↦ λ before kept. (
              incoming,
              ap version_of (find-put peer from doc_version acked) ∙ rw e readable,
              replaces-includes incoming before acked kept (rw (==→eq peer from e) t),
            )
            | inr n ↦ λ before kept. (
              before,
              ap version_of (find-put peer from doc_version acked) ∙ rw n kept,
              ordered.0 before,
            )
          ])
        ]

    connect-acked :
        (reachable : ℕ → Bool) (to : ℕ) (s : Engine Vault Disk)
        → ((connect device reachable to s).0).acked_versions ≡ s.acked_versions
    unfolding connect send_bundle
    connect-acked reachable to s = elim (Bool-cases (reachable to)) [
      | inl t ↦ rw t refl
      | inr f ↦ rw f refl
    ]

    meet_each-acked :
        (reachable : ℕ → Bool) (peers : List (ℕ × List ℕ)) (s : Engine Vault Disk)
        → ((meet_each device reachable peers s).0).acked_versions ≡ s.acked_versions
    meet_each-acked reachable [] s = refl
    meet_each-acked reachable ((to, key) ∷ peers) s =
        meet_each-acked reachable peers (connect device reachable to s).0
        ∙ connect-acked reachable to s

    abbrev pub Keeps : Engine Vault Disk → Step Vault Disk → Type 0
    Keeps s step = Grows peer s.acked_versions (step.0).acked_versions

    roster_imported-Keeps :
        (reachable : ℕ → Bool) (result : Bool × Vault) (s : Engine Vault Disk)
        → Keeps s (roster_imported device reachable result s)
    roster_imported-Keeps reachable (false, vault) s = same-Grows s.acked_versions _ refl
    roster_imported-Keeps reachable (true, vault) s =
        let s1 = record s { vault = vault } in
        same-Grows s.acked_versions _ (meet_each-acked reachable (new_peers device s1) s1)

    send_bundle-Keeps : (to : ℕ) (s : Engine Vault Disk) → Keeps s (send_bundle device to s)
    unfolding send_bundle
    send_bundle-Keeps to s = same-Grows s.acked_versions s.acked_versions refl

    handle-Keeps :
        (reachable : ℕ → Bool) (from : ℕ) (frame : Frame) (s : Engine Vault Disk)
        → Keeps s (handle device reachable from frame s)
    handle-Keeps reachable from frame s = by frame
      where
        still : Grows peer s.acked_versions s.acked_versions
        still = same-Grows s.acked_versions s.acked_versions refl

        by : (frame : Frame) → Keeps s (handle device reachable from frame s)
        by (hello vault) =
            on_hello-cases device (Keeps s) s still from vault (λ active old. still)
              (λ active new. send_bundle-Keeps from _)
        by (have doc_version) =
            on_have-cases device (Keeps s) s still from doc_version (λ incoming readable active.
              ack-Grows from doc_version incoming s.acked_versions readable)
        by (ops author jsonl) = on_ops-cases device (Keeps s) s still author jsonl (λ key. still)
        by (roster_have authors) =
            on_roster_have-cases device (Keeps s) s still from (λ active jsonl. still)
        by (roster_ops author jsonl) =
            on_roster_ops-cases device (Keeps s) s still reachable author jsonl
              (λ key. roster_imported-Keeps reachable _ s)
        by ping = still
        by (blob_want hash) =
            on_blob_want-cases device (Keeps s) s still from hash (λ active total_len. still)
        by (blob_data hash bytes) =
            on_blob_data-cases device (Keeps s) s still hash bytes (λ disk stored. still)
        by (keylog_have authors) =
            on_keylog_have-cases device (Keeps s) s still from (λ active jsonl logs. still)
        by (keylog_ops author jsonl) =
            on_keylog_ops-cases device (Keeps s) s still author jsonl (λ vault. still)
        by (snapshot_have ids) =
            on_snapshot_have-cases device (Keeps s) s still from ids (λ active held. still)
        by (snapshot_want id) =
            on_snapshot_want-cases device (Keeps s) s still from id (λ active framed. still)
        by (snapshot_data framed) =
            on_snapshot_data-cases device (Keeps s) s still from framed (λ active result. still)
        by (blob_chunk hash offset total_len bytes) =
            on_blob_chunk-cases device (Keeps s) s still hash offset total_len bytes
              (λ disk incoming stored. still)

    -- After any sequence of frames the acknowledged version of a peer, if there was a readable one,
    -- is one that includes it. The condition is that inclusion of versions is reflexive and
    -- transitive.
    pub run-Grows :
        (arrivals : List Arrival) (s : Engine Vault Disk)
        → Grows peer s.acked_versions ((run device arrivals s).0).acked_versions
    unfolding run
    run-Grows [] s = same-Grows s.acked_versions s.acked_versions refl
    run-Grows (a ∷ arrivals) s =
        let first = handle device a.reachable a.peer a.frame s in
        Grows-trans s.acked_versions (first.0).acked_versions
          ((run device arrivals first.0).0).acked_versions
          (handle-Keeps a.reachable a.peer a.frame s) (run-Grows arrivals first.0)
