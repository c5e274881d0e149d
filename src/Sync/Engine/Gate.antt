-- ===== src/Sync/Engine/Gate.antt =====
-- The read-side gate of the engine: it answers nobody but Active peers.
use roam.Prelude.{
  ℕ, zero, suc, ◌+◌, Bool, true, false, not, ◌&&◌, List, [], ◌∷◌, ◌++◌, map, length, All, any,
  select, ltb, ◌==◌, ==_self, if◌then◌else◌, ◌≡◌, refl, ◌∙◌, arith, inl, inr, Bool-cases, Memᴰ,
  any_of_mem,
}
use roam.Prelude.Maps.{contains}
use roam.Prelude.Outcomes.{Outcome-cases}
use roam.Prelude.Trim.{same_text}
use roam.Roster.Entry.{PeerRecord}
use roam.Storage.Blob.{read_range}
use roam.Sync.Frame.{
  Frame, hello, have, ops, roster_have, roster_ops, ping, blob_want, blob_data, keylog_have,
  keylog_ops, snapshot_have, snapshot_want, snapshot_data, blob_chunk,
}
use roam.Sync.Chunks.{expected_chunk_len}
use roam.Prelude.Keyed.{text_key}
use roam.Sync.Engine.{
  Device, Engine, Effect, send, dial, add_route, remove_route, changed, local_flush, Step,
  is_active_status, is_active, other_active,
}
use roam.Sync.Engine.Offers.{
  Offer, send_logs, bundle, gather_offer, send_bundle, connect, push_logs, offer_snapshots,
}
use roam.Sync.Engine.Gossip.{signal_if, new_peers, meet_each, roster_imported, applied}
use roam.Sync.Engine.Blobs.{serve_from, serve}
use roam.Sync.Engine.Cases.{
  on_hello-cases, on_have-cases, on_ops-cases, on_roster_have-cases, on_roster_ops-cases,
  on_blob_want-cases, on_blob_data-cases, on_keylog_have-cases, on_keylog_ops-cases,
  on_snapshot_have-cases, on_snapshot_want-cases, on_snapshot_data-cases, on_blob_chunk-cases,
}
use roam.Sync.Engine.Handle.{want_each, handle}

-- A frame goes to such a peer only; other effects are free.
abbrev pub goes_to : (ℕ → Bool) → Effect → Bool
goes_to allowed (send peer frame) = allowed peer
goes_to allowed (dial peer) = true
goes_to allowed (add_route peer key) = true
goes_to allowed (remove_route peer) = true
goes_to allowed changed = true
goes_to allowed local_flush = true

abbrev pub AllGoTo : (ℕ → Bool) → List Effect → Type 0
AllGoTo allowed = All (λ effect. goes_to allowed effect ≡ true)

module _ (allowed : ℕ → Bool) where
  AllGoTo-append :
      (first second : List Effect)
      → AllGoTo allowed first
      → AllGoTo allowed second
      → AllGoTo allowed (first ++ second)
  AllGoTo-append [] second h k = k
  AllGoTo-append (effect ∷ first) second h k = (h.0, AllGoTo-append first second h.1 k)

  signal_if-AllGoTo : (b : Bool) → AllGoTo allowed (signal_if b)
  signal_if-AllGoTo true = (refl, tt)
  signal_if-AllGoTo false = tt

  module _ (peer : ℕ) (fine : allowed peer ≡ true) where
    send_logs-AllGoTo :
        (frame : ℕ → List ℕ → Frame) (logs : List (ℕ × List ℕ))
        → AllGoTo allowed (send_logs frame peer logs)
    send_logs-AllGoTo frame [] = tt
    send_logs-AllGoTo frame ((author, jsonl) ∷ logs) = (fine, send_logs-AllGoTo frame logs)

module _ {Vault Keychain Version Disk : Type 0} (device : Device Vault Keychain Version Disk) where
  abbrev pub active_in : Vault → ℕ → Bool
  active_in vault peer = is_active device peer vault

  bundle-AllGoTo :
      (allowed : ℕ → Bool) (peer : ℕ) (offer : Offer)
      → allowed peer ≡ true
      → AllGoTo allowed (bundle device peer offer)
  bundle-AllGoTo allowed peer offer fine =
      let rest = send_logs-AllGoTo allowed peer fine keylog_ops offer.keylogs in
      (
        fine,
        (
          fine,
          (
            fine,
            (
              fine,
              AllGoTo-append allowed (send_logs ops peer offer.peer_logs) _
                  (send_logs-AllGoTo allowed peer fine ops offer.peer_logs)
                  (fine, (fine, (fine, rest))),
            ),
          ),
        ),
      )

  want_each-AllGoTo :
      (allowed : ℕ → Bool) (peer : ℕ) (held ids : List (List ℕ))
      → allowed peer ≡ true
      → AllGoTo allowed (want_each device peer held ids)
  want_each-AllGoTo allowed peer held [] fine = tt
  want_each-AllGoTo allowed peer held (id ∷ ids) fine =
      let rest = want_each-AllGoTo allowed peer held ids fine in
      elim (Bool-cases (any (λ old. same_text old id) held)) [
        | inl t ↦ rw t rest
        | inr f ↦ rw f (fine, rest)
      ]

  serve_from-AllGoTo :
      (allowed : ℕ → Bool) (fuel peer : ℕ) (hash : List ℕ) (offset total_len : ℕ) (disk : Disk)
      → allowed peer ≡ true
      → AllGoTo allowed (serve_from device fuel peer hash offset total_len disk)
  unfolding serve_from
  serve_from-AllGoTo allowed zero peer hash offset total_len disk fine = tt
  serve_from-AllGoTo allowed (suc fuel) peer hash offset total_len disk fine =
      elim (Bool-cases (ltb offset total_len)) [
        | inr end ↦ rw (serve_from, end) tt
        | inl more ↦
            elim (Outcome-cases
              (read_range device.blobs hash offset (expected_chunk_len offset total_len) disk)) [
                | inr (e, failed) ↦ rw (serve_from, more, failed) tt
                | inl ([], part) ↦ rw (serve_from, more, part) tt
                | inl (b ∷ bytes, part) ↦
                    rw (serve_from, more, part)
                      (
                        fine,
                        serve_from-AllGoTo allowed fuel peer hash (offset + length (b ∷ bytes))
                            total_len disk fine,
                      )
              ]
      ]

  -- What the handlers of frames that ask for something promise.
  abbrev pub Answers : Step Vault Disk → Type 0
  Answers step = AllGoTo (active_in (step.0).vault) step.1

  offer_snapshots-AllGoTo :
      (allowed : ℕ → Bool) (peer : ℕ) (incoming : Version) (vault : Vault)
      → allowed peer ≡ true
      → AllGoTo allowed (offer_snapshots device peer incoming vault)
  unfolding offer_snapshots
  offer_snapshots-AllGoTo allowed peer incoming vault fine = answer _ _
    where
      answer : (b : Bool) (frame : Frame) → AllGoTo allowed (if b then [] else send peer frame ∷ [])
      answer true frame = tt
      answer false frame = (fine, tt)

  serve-AllGoTo :
      (allowed : ℕ → Bool) (peer : ℕ) (hash : List ℕ) (total_len : ℕ) (disk : Disk)
      → allowed peer ≡ true
      → AllGoTo allowed (serve device peer hash total_len disk)
  serve-AllGoTo allowed peer hash total_len disk fine = elim (Bool-cases (total_len == 0)) [
    | inl t ↦ rw t (fine, tt)
    | inr f ↦ rw f (serve_from-AllGoTo allowed total_len peer hash 0 total_len disk fine)
  ]

  send_bundle-Answers :
      (peer : ℕ) (s : Engine Vault Disk)
      → is_active device peer s.vault ≡ true
      → Answers (send_bundle device peer s)
  unfolding send_bundle
  send_bundle-Answers peer s active =
      bundle-AllGoTo (active_in s.vault) peer (gather_offer device s.vault) active

  push_logs-AllGoTo :
      (peer : ℕ) (incoming : Version) (vault : Vault)
      → is_active device peer vault ≡ true
      → AllGoTo
          (active_in vault)
          (push_logs device peer vault ++ offer_snapshots device peer incoming vault)
  unfolding push_logs
  push_logs-AllGoTo peer incoming vault active =
      AllGoTo-append (active_in vault) (push_logs device peer vault) _
        (active, send_logs-AllGoTo (active_in vault) peer active ops _)
        (offer_snapshots-AllGoTo (active_in vault) peer incoming vault active)

  applied-Answers :
      (result : Bool × Vault) (s : Engine Vault Disk) → Answers (applied device result s)
  applied-Answers result s = signal_if-AllGoTo (active_in result.1) _

  connect-AllGoTo :
      (allowed reachable : ℕ → Bool) (peer : ℕ) (s : Engine Vault Disk)
      → allowed peer ≡ true
      → AllGoTo allowed (connect device reachable peer s).1
        × (((connect device reachable peer s).0).vault ≡ s.vault)
  unfolding connect send_bundle
  connect-AllGoTo allowed reachable peer s fine = elim (Bool-cases (reachable peer)) [
    | inl t ↦ rw t ((refl, bundle-AllGoTo allowed peer (gather_offer device s.vault) fine), refl)
    | inr f ↦ rw f ((refl, tt), refl)
  ]

  meet_each-AllGoTo :
      (allowed reachable : ℕ → Bool) (peers : List (ℕ × List ℕ)) (s : Engine Vault Disk)
      → All (λ (peer : ℕ × List ℕ). allowed peer.0 ≡ true) peers
      → AllGoTo allowed (meet_each device reachable peers s).1
        × (((meet_each device reachable peers s).0).vault ≡ s.vault)
  meet_each-AllGoTo allowed reachable [] s fine = (tt, refl)
  meet_each-AllGoTo allowed reachable ((peer, key) ∷ peers) s fine =
      let first = connect device reachable peer s in
      let (here, same) = connect-AllGoTo allowed reachable peer s fine.0 in
      let (rest, vault) = meet_each-AllGoTo allowed reachable peers first.0 fine.1 in
      (
        (
          refl,
          AllGoTo-append allowed first.1 (meet_each device reachable peers first.0).1 here rest,
        ),
        vault ∙ same,
      )

  -- A record of the roster whose status is Active makes its peer active.
  active_of_mem :
      (vault : Vault) {p : PeerRecord}
      → Memᴰ p (device.calls.roster vault)
      → is_active_status p.status ≡ true
      → is_active device p.peer_id vault ≡ true
  unfolding is_active
  active_of_mem vault {p} m active =
      any_of_mem (λ q. q.peer_id == p.peer_id && is_active_status q.status)
        (device.calls.roster vault) m (rw (==_self p.peer_id) active)

  chosen-All :
      (allowed : ℕ → Bool) (test : PeerRecord → Bool) (ps : List PeerRecord)
      → ((p : PeerRecord) → Memᴰ p ps → test p ≡ true → allowed p.peer_id ≡ true)
      → All
          (λ (peer : ℕ × List ℕ). allowed peer.0 ≡ true)
          (map (λ p. (p.peer_id, p.verifying_key)) (select test ps))
  chosen-All allowed test [] h = tt
  chosen-All allowed test (p ∷ ps) h =
      let rest = chosen-All allowed test ps (λ q m. h q (Memᴰ.tail m)) in
      elim (Bool-cases (test p)) [ inl t ↦ rw t (h p (Memᴰ.head refl) t, rest) | inr f ↦ rw f rest ]

  roster_imported-Answers :
      (reachable : ℕ → Bool) (result : Bool × Vault) (s : Engine Vault Disk)
      → Answers (roster_imported device reachable result s)
  roster_imported-Answers reachable (false, vault) s = tt
  roster_imported-Answers reachable (true, vault) s =
      let s1 = record s { vault = vault } in
      let fine =
        chosen-All (active_in vault)
          (λ p. other_active device p && not (contains p.peer_id s.connected))
          (device.calls.roster vault) (λ p m t. active_of_mem vault m (ground arith)) in
      let (sent, same) =
        meet_each-AllGoTo (active_in vault) reachable (new_peers device s1) s1 fine in
      rw same sent

  -- Whatever frame comes in from whomever, each frame that the engine sends in handling it goes to
  -- a peer that its roster then lists as Active.
  pub handle-Answers :
      (reachable : ℕ → Bool) (peer : ℕ) (frame : Frame) (s : Engine Vault Disk)
      → Answers (handle device reachable peer frame s)
  handle-Answers reachable peer (hello vault) s =
      on_hello-cases device Answers s tt peer vault (λ active old. tt)
        (λ active new. send_bundle-Answers peer _ active)
  handle-Answers reachable peer (have doc_version) s =
      on_have-cases device Answers s tt peer doc_version
        (λ incoming e active. push_logs-AllGoTo peer incoming s.vault active)
  handle-Answers reachable peer (ops author jsonl) s =
      on_ops-cases device Answers s tt author jsonl (λ key. applied-Answers _ s)
  handle-Answers reachable peer (roster_have authors) s =
      on_roster_have-cases device Answers s tt peer (λ active jsonl. (active, tt))
  handle-Answers reachable peer (roster_ops author jsonl) s =
      on_roster_ops-cases device Answers s tt reachable author jsonl
        (λ key. roster_imported-Answers reachable _ s)
  handle-Answers reachable peer ping s = tt
  handle-Answers reachable peer (blob_want hash) s =
      on_blob_want-cases device Answers s tt peer hash
        (λ active total_len. serve-AllGoTo (active_in s.vault) peer hash total_len s.disk active)
  handle-Answers reachable peer (blob_data hash bytes) s =
      on_blob_data-cases device Answers s tt hash bytes
        (λ disk stored. signal_if-AllGoTo (active_in s.vault) stored)
  handle-Answers reachable peer (keylog_have authors) s =
      on_keylog_have-cases device Answers s tt peer (λ active jsonl logs.
        (active, send_logs-AllGoTo (active_in s.vault) peer active keylog_ops logs))
  handle-Answers reachable peer (keylog_ops author jsonl) s =
      on_keylog_ops-cases device Answers s tt author jsonl (λ vault. tt)
  handle-Answers reachable peer (snapshot_have ids) s =
      on_snapshot_have-cases device Answers s tt peer ids
        (λ active held. want_each-AllGoTo (active_in s.vault) peer held ids active)
  handle-Answers reachable peer (snapshot_want id) s =
      on_snapshot_want-cases device Answers s tt peer id (λ active framed. (active, tt))
  handle-Answers reachable peer (snapshot_data framed) s =
      on_snapshot_data-cases device Answers s tt peer framed
        (λ active result. applied-Answers result s)
  handle-Answers reachable peer (blob_chunk hash offset total_len bytes) s =
      on_blob_chunk-cases device Answers s tt hash offset total_len bytes
        (λ disk incoming stored. signal_if-AllGoTo (active_in s.vault) stored)
