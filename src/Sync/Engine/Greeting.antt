-- ===== src/Sync/Engine/Greeting.antt =====
-- A peer is greeted once: the handlers never trade greetings for ever.
use roam.Prelude.{
  ℕ, zero, suc, ◌+◌, ◌≤◌, Bool, true, false, not, ◌&&◌, List, [], ◌∷◌, ◌++◌, map, length, any,
  select, ltb, ◌==◌, if◌then◌else◌, ==_self, ==→eq, ◌≡◌, refl, arith, ◌∙◌, inl, inr, Bool-cases,
}
use roam.Prelude.Maps.{contains, insert, contains-insert}
use roam.Prelude.Outcomes.{Outcome-cases}
use roam.Prelude.Trim.{same_text}
use roam.Roster.Entry.{PeerRecord}
use roam.Storage.Blob.{read_range}
use roam.Sync.Frame.{
  Frame, hello, have, ops, roster_have, roster_ops, ping, blob_want, blob_data, keylog_have,
  keylog_ops, snapshot_have, snapshot_want, snapshot_data, blob_chunk,
}
use roam.Sync.Chunks.{expected_chunk_len}
use roam.Sync.Engine.{Device, Engine, send, Step, other_active, held_peer_logs}
use roam.Sync.Engine.Offers.{
  Offer, send_logs, bundle, gather_offer, send_bundle, connect, push_logs, offer_snapshots,
}
use roam.Sync.Engine.Gossip.{new_peers, meet_each, roster_imported}
use roam.Sync.Engine.Blobs.{serve_from, serve}
use roam.Sync.Engine.Handle.{Arrival, want_each, handle, run}
use roam.Sync.Engine.Cases.{
  on_hello-cases, on_have-cases, on_ops-cases, on_roster_have-cases, on_roster_ops-cases,
  on_blob_want-cases, on_blob_data-cases, on_keylog_have-cases, on_keylog_ops-cases,
  on_snapshot_have-cases, on_snapshot_want-cases, on_snapshot_data-cases, on_blob_chunk-cases,
}
use roam.Sync.Engine.Hellos.{
  AreNew, AreNew-mono, IsUnique, hellos, hellos-append, hellos-keylog_ops, hellos-ops,
  hellos-signal_if, once-le, one_if,
}

module _ {Vault Keychain Version Disk : Type 0} (device : Device Vault Keychain Version Disk) where
  module _ (peer : ℕ) where
    -- The greetings of a step to the peer, who is connected after one, and who gets none if it was.
    abbrev pub GreetsOnce : Engine Vault Disk → Step Vault Disk → Type 0
    GreetsOnce s step =
        hellos peer step.1 + one_if (contains peer s.connected)
        ≤ one_if (contains peer (step.0).connected)

    hellos-bundle :
        (to : ℕ) (offer : Offer) → hellos peer (bundle device to offer) ≡ one_if (to == peer)
    hellos-bundle to offer = omega (
      arith,
      hellos-append peer (send_logs ops to offer.peer_logs) (
          send to (roster_ops device.peer_id offer.own_roster)
          ∷ send to (keylog_have ((device.peer_id, 0) ∷ map (λ log. (log.0, 0)) offer.keylogs))
          ∷ send to (keylog_ops device.peer_id offer.own_keylog)
          ∷ send_logs keylog_ops to offer.keylogs),
      hellos-ops peer to offer.peer_logs,
      hellos-keylog_ops peer to offer.keylogs,
    )

    send_bundle-GreetsOnce :
        (to : ℕ) (s : Engine Vault Disk) (connected : List ℕ)
        → contains to connected ≡ false
        → ((x : ℕ) → contains x (insert to s.connected) ≡ contains x (insert to connected))
        → hellos peer (send_bundle device to s).1 + one_if (contains peer connected)
          ≤ one_if (contains peer ((send_bundle device to s).0).connected)
    unfolding send_bundle
    send_bundle-GreetsOnce to s connected new same =
        once-le peer to (hellos peer (send_bundle device to s).1) connected (insert to s.connected)
          (hellos-bundle to (gather_offer device s.vault)) new
          (same peer ∙ contains-insert peer to connected)

    connect-GreetsOnce :
        (reachable : ℕ → Bool) (to : ℕ) (s : Engine Vault Disk)
        → contains to s.connected ≡ false
        → GreetsOnce s (connect device reachable to s)
    unfolding connect
    connect-GreetsOnce reachable to s new = elim (Bool-cases (reachable to)) [
      | inl t ↦ rw t (omega (arith, send_bundle-GreetsOnce to s s.connected new (λ x. refl)))
      | inr f ↦ rw f (omega arith)
    ]

    -- Whom a connection connects: nobody but the peer that it is to.
    connect-connected :
        (reachable : ℕ → Bool) (to x : ℕ) (s : Engine Vault Disk)
        → contains x (insert to s.connected) ≡ false
        → contains x ((connect device reachable to s).0).connected ≡ false
    unfolding connect send_bundle
    connect-connected reachable to x s absent = elim (Bool-cases (reachable to)) [
      | inl t ↦ rw t absent
      | inr f ↦ rw f (ground (arith, contains-insert x to s.connected, absent))
    ]

    meet_each-GreetsOnce :
        (reachable : ℕ → Bool) (peers : List (ℕ × List ℕ)) (s : Engine Vault Disk)
        → AreNew peers s.connected
        → GreetsOnce s (meet_each device reachable peers s)
    meet_each-GreetsOnce reachable [] s new = omega arith
    meet_each-GreetsOnce reachable ((to, key) ∷ peers) s new =
        let first = connect device reachable to s in
        let rest = meet_each device reachable peers first.0 in
        omega (
          arith,
          hellos-append peer first.1 rest.1,
          connect-GreetsOnce reachable to s new.0,
          meet_each-GreetsOnce reachable peers first.0 (
              AreNew-mono peers (insert to s.connected) (first.0).connected
                (λ x absent. connect-connected reachable to x s absent) new.1),
        )

    hellos-want_each :
        (to : ℕ) (held ids : List (List ℕ)) → hellos peer (want_each device to held ids) ≡ 0
    hellos-want_each to held [] = refl
    hellos-want_each to held (id ∷ ids) = elim (Bool-cases (any (λ old. same_text old id) held)) [
      | inl t ↦ rw t (hellos-want_each to held ids)
      | inr f ↦ rw f (omega (arith, hellos-want_each to held ids))
    ]

    hellos-serve_from :
        (fuel to : ℕ) (hash : List ℕ) (offset total_len : ℕ) (disk : Disk)
        → hellos peer (serve_from device fuel to hash offset total_len disk) ≡ 0
    unfolding serve_from
    hellos-serve_from zero to hash offset total_len disk = refl
    hellos-serve_from (suc fuel) to hash offset total_len disk =
        elim (Bool-cases (ltb offset total_len)) [
          | inr end ↦ rw (serve_from, end) refl
          | inl more ↦
              elim (Outcome-cases
                (read_range device.blobs hash offset (expected_chunk_len offset total_len) disk)) [
                  | inr (e, failed) ↦ rw (serve_from, more, failed) refl
                  | inl ([], part) ↦ rw (serve_from, more, part) refl
                  | inl (b ∷ bytes, part) ↦
                      rw (serve_from, more, part)
                        (omega (
                          arith,
                          hellos-serve_from fuel to hash (offset + length (b ∷ bytes)) total_len
                              disk,
                        ))
                ]
        ]

    hellos-serve :
        (to : ℕ) (hash : List ℕ) (total_len : ℕ) (disk : Disk)
        → hellos peer (serve device to hash total_len disk) ≡ 0
    hellos-serve to hash total_len disk = elim (Bool-cases (total_len == 0)) [
      | inl t ↦ rw t refl
      | inr f ↦ rw f (hellos-serve_from total_len to hash 0 total_len disk)
    ]

    hellos-push_logs :
        (to : ℕ) (incoming : Version) (vault : Vault)
        → hellos peer (push_logs device to vault ++ offer_snapshots device to incoming vault) ≡ 0
    unfolding push_logs offer_snapshots
    hellos-push_logs to incoming vault =
        let logs = held_peer_logs device vault in
        omega (
          arith,
          hellos-append peer (send_logs ops to logs) (offer_snapshots device to incoming vault),
          hellos-ops peer to logs,
          answer _ _,
        )
      where
        answer :
            (b : Bool) (ids : List (List ℕ))
            → hellos peer (if b then [] else send to (snapshot_have ids) ∷ []) ≡ 0
        answer true ids = refl
        answer false ids = refl

  -- What is known of the roster: it lists each peer once.
  abbrev pub ListsOnce : Type 0
  ListsOnce = (vault : Vault) → IsUnique (map (λ p. p.peer_id) (device.calls.roster vault))

  abbrev chosen : (before : List ℕ) → List PeerRecord → List (ℕ × List ℕ)
  chosen before ps =
      map (λ p. (p.peer_id, p.verifying_key))
        (select (λ p. other_active device p && not (contains p.peer_id before)) ps)

  chosen-AreNew :
      (before connected : List ℕ) (ps : List PeerRecord)
      → IsUnique (map (λ p. p.peer_id) ps)
      → ((x : ℕ)
          → contains x (map (λ p. p.peer_id) ps) ≡ true
          → contains x before ≡ false
          → contains x connected ≡ false)
      → AreNew (chosen before ps) connected
  chosen-AreNew before connected [] unique apart = tt
  chosen-AreNew before connected (p ∷ ps) unique apart =
      let id = p.peer_id in
      let self : contains id (map (λ p. p.peer_id) (p ∷ ps)) ≡ true = ground (arith, ==_self id) in
      elim (Bool-cases (other_active device p && not (contains id before))) [
        | inr f ↦ rw f (
            chosen-AreNew before connected ps unique.1
              (λ x listed absent. apart x (ground (arith, listed)) absent))
        | inl t ↦ rw t (
          apart id self (ground (arith, t)),
          chosen-AreNew before (insert id connected) ps unique.1 (λ x listed absent.
              let other : (x == id) ≡ false =
                distinct x id (map (λ p. p.peer_id) ps) listed unique.0 in
              let old = apart x (ground (arith, listed)) absent in
              contains-insert x id connected ∙ ground (arith, other, old)),
        )
      ]
    where
      distinct :
          (x y : ℕ) (ids : List ℕ)
          → contains x ids ≡ true
          → contains y ids ≡ false
          → (x == y) ≡ false
      distinct x y ids listed absent = elim (Bool-cases (x == y)) [
        | inl e ↦
            let present : contains y ids ≡ true = rw (← ==→eq x y e) listed in
            absurd (ground (arith, present, absent))
        | inr n ↦ n
      ]

  roster_imported-GreetsOnce :
      (peer : ℕ) (reachable : ℕ → Bool) (result : Bool × Vault) (s : Engine Vault Disk)
      → ListsOnce
      → GreetsOnce peer s (roster_imported device reachable result s)
  roster_imported-GreetsOnce peer reachable (false, vault) s once = omega arith
  roster_imported-GreetsOnce peer reachable (true, vault) s once =
      let s1 = record s { vault = vault } in
      meet_each-GreetsOnce peer reachable (new_peers device s1) s1 (
        chosen-AreNew s.connected s.connected (device.calls.roster vault) (once vault)
          (λ x listed absent. absent))

  handle-GreetsOnce :
      (peer : ℕ) (reachable : ℕ → Bool) (from : ℕ) (frame : Frame) (s : Engine Vault Disk)
      → ListsOnce
      → GreetsOnce peer s (handle device reachable from frame s)
  handle-GreetsOnce peer reachable from (hello vault) s once =
      on_hello-cases device (GreetsOnce peer s) s (omega arith) from vault
        (λ active old. omega arith)
        (λ active new. send_bundle-GreetsOnce peer from _ s.connected new (λ x.
          contains-insert x from (from ∷ s.connected)
          ∙ ground (arith, contains-insert x from s.connected)))
  handle-GreetsOnce peer reachable from (have doc_version) s once =
      on_have-cases device (GreetsOnce peer s) s (omega arith) from doc_version
        (λ incoming e active. omega (arith, hellos-push_logs peer from incoming s.vault))
  handle-GreetsOnce peer reachable from (ops author jsonl) s once =
      on_ops-cases device (GreetsOnce peer s) s (omega arith) author jsonl
        (λ key. omega (arith, hellos-signal_if peer _))
  handle-GreetsOnce peer reachable from (roster_have authors) s once =
      on_roster_have-cases device (GreetsOnce peer s) s (omega arith) from
        (λ active jsonl. omega arith)
  handle-GreetsOnce peer reachable from (roster_ops author jsonl) s once =
      on_roster_ops-cases device (GreetsOnce peer s) s (omega arith) reachable author jsonl
        (λ key. roster_imported-GreetsOnce peer reachable _ s once)
  handle-GreetsOnce peer reachable from ping s once = omega arith
  handle-GreetsOnce peer reachable from (blob_want hash) s once =
      on_blob_want-cases device (GreetsOnce peer s) s (omega arith) from hash
        (λ active total_len. omega (arith, hellos-serve peer from hash total_len s.disk))
  handle-GreetsOnce peer reachable from (blob_data hash bytes) s once =
      on_blob_data-cases device (GreetsOnce peer s) s (omega arith) hash bytes
        (λ disk stored. omega (arith, hellos-signal_if peer stored))
  handle-GreetsOnce peer reachable from (keylog_have authors) s once =
      on_keylog_have-cases device (GreetsOnce peer s) s (omega arith) from
        (λ active jsonl logs. omega (arith, hellos-keylog_ops peer from logs))
  handle-GreetsOnce peer reachable from (keylog_ops author jsonl) s once =
      on_keylog_ops-cases device (GreetsOnce peer s) s (omega arith) author jsonl
        (λ vault. omega arith)
  handle-GreetsOnce peer reachable from (snapshot_have ids) s once =
      on_snapshot_have-cases device (GreetsOnce peer s) s (omega arith) from ids
        (λ active held. omega (arith, hellos-want_each peer from held ids))
  handle-GreetsOnce peer reachable from (snapshot_want id) s once =
      on_snapshot_want-cases device (GreetsOnce peer s) s (omega arith) from id
        (λ active framed. omega arith)
  handle-GreetsOnce peer reachable from (snapshot_data framed) s once =
      on_snapshot_data-cases device (GreetsOnce peer s) s (omega arith) from framed
        (λ active result. omega (arith, hellos-signal_if peer _))
  handle-GreetsOnce peer reachable from (blob_chunk hash offset total_len bytes) s once =
      on_blob_chunk-cases device (GreetsOnce peer s) s (omega arith) hash offset total_len bytes
        (λ disk incoming stored. omega (arith, hellos-signal_if peer stored))

  run-GreetsOnce :
      (peer : ℕ) (arrivals : List Arrival) (s : Engine Vault Disk)
      → ListsOnce
      → GreetsOnce peer s (run device arrivals s)
  unfolding run
  run-GreetsOnce peer [] s once = omega arith
  run-GreetsOnce peer (a ∷ arrivals) s once =
      let first = handle device a.reachable a.peer a.frame s in
      let rest = run device arrivals first.0 in
      omega (
        arith,
        hellos-append peer first.1 rest.1,
        handle-GreetsOnce peer a.reachable a.peer a.frame s once,
        run-GreetsOnce peer arrivals first.0 once,
      )

  -- In handling any sequence of frames the engine greets a peer at most once, and not at all if the
  -- peer is connected at the start; a peer that was greeted is connected at the end. The condition
  -- is that the roster lists each peer once.
  pub run-hellos :
      (peer : ℕ) (arrivals : List Arrival) (s : Engine Vault Disk)
      → ListsOnce
      → (hellos peer (run device arrivals s).1 + one_if (contains peer s.connected) ≤ 1)
        × (1 ≤ hellos peer (run device arrivals s).1
            → contains peer ((run device arrivals s).0).connected ≡ true)
  run-hellos peer arrivals s once =
      bounded (contains peer s.connected) (contains peer ((run device arrivals s).0).connected)
        (hellos peer (run device arrivals s).1) (run-GreetsOnce peer arrivals s once)
    where
      bounded :
          (before after : Bool) (n : ℕ)
          → n + one_if before ≤ one_if after
          → (n + one_if before ≤ 1) × (1 ≤ n → after ≡ true)
      bounded before true n h = (h, λ some. refl)
      bounded before false n h = (omega (arith, h), λ some. absurd (omega (arith, h, some)))
