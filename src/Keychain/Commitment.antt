-- ===== src/Keychain/Commitment.antt =====
-- An epoch's id commits to its key: crates/roam-storage/src/keychain.rs.
use roam.Prelude.{
  ℕ, ◌+◌, false, ◌&&◌, some, List, [], ◌++◌, length, length-append, ◌≡◌, refl, arith, ◌∙◌, ap, sym,
  Memᴰ, inl, inr, Bool-cases, Option-cases, ◌==◌,
}
use mathlib.Core.List.{append_assoc}
use roam.Prelude.Bytes.{to_le_bytes, append-injective}
use roam.Prelude.Outcomes.{Outcome-cases}
use roam.Prelude.Keyed.{find, put, text_key}
use roam.Prelude.Trim.{same_text, same_text→eq}
use roam.KeyLog.{Recipient, device, paper, rotate, KeyLogEntry, concat}
use roam.Storage.Keywrap.{KeyCrypto, unwrap, unwrap-length}
use roam.Keychain.{
  epoch0_id, SecretKey, EpochNode, is_none, compute_epoch_id, id_with, genesis, announce_all,
  add_recipient, unwrapped, epochs_of, build, epoch_key,
}
use roam.Keychain.Epochs.{Forall, announce_all-Forall, receive_all-Forall}

-- An epoch is announced by an entry, and a key that it has is one of 32 bytes that its id commits
-- to.
abbrev pub IsCommitted : (List ℕ → List ℕ) → List KeyLogEntry → (id : List ℕ) → EpochNode → Type 0
IsCommitted blake3 entries id node =
    ((e : KeyLogEntry) × Memᴰ e entries
      × (e.epoch_id ≡ id)
      × (e.author ≡ node.minted_by)
      × (e.body ≡ rotate node.parents node.nonce))
    × ((key : SecretKey)
        → node.key ≡ some key
        → (length key.bytes ≡ 32) × (id_with blake3 node key.bytes ≡ id))

-- Every epoch but epoch 0 is committed.
abbrev IsSound : (List ℕ → List ℕ) → List KeyLogEntry → (id : List ℕ) → EpochNode → Type 0
IsSound blake3 entries id node = same_text id epoch0_id ≡ false → IsCommitted blake3 entries id node

module _ (crypto : KeyCrypto) (blake3 : List ℕ → List ℕ) (self_peer : ℕ) (secret : List ℕ) where
  -- A key that is unwrapped is one that the id commits to.
  unwrapped-commits :
      (id blob : List ℕ) (node : EpochNode) {key : SecretKey}
      → unwrapped crypto blake3 self_peer secret id blob node ≡ some key
      → (length key.bytes ≡ 32) × (id_with blake3 node key.bytes ≡ id)
  unfolding unwrapped
  unwrapped-commits id blob node {key} h = elim (Outcome-cases (unwrap crypto secret blob)) [
    | inr (problem, e) ↦ absurd (ground (arith, rw (unwrapped, e) at h))
    | inl (bytes, e) ↦ elim (Bool-cases (same_text (id_with blake3 node bytes) id)) [
      | inr n ↦ absurd (ground (arith, rw (unwrapped, e, n) at h))
      | inl t ↦
          let here : some (record { bytes = bytes }) ≡ some key = rw (unwrapped, e, t) at h in
          let same : bytes ≡ key.bytes = cc in
          rw (sym same)
            (unwrap-length crypto secret blob e, same_text→eq (id_with blake3 node bytes) id t)
    ]
  ]

  add_recipient-IsSound :
      (entries : List KeyLogEntry) (id : List ℕ) (node : EpochNode) (recipient : Recipient)
      (blob : List ℕ)
      → IsSound blake3 entries id node
      → IsSound blake3 entries id
          (add_recipient crypto blake3 self_peer secret id recipient blob node)
  unfolding add_recipient
  add_recipient-IsSound entries id node paper blob h = h
  add_recipient-IsSound entries id node (device peer) blob committed =
      elim (Bool-cases (peer == self_peer && is_none node.key)) [
        | inr n ↦ rw n committed
        | inl t ↦
            rw t
              (λ other. ((committed other).0, λ key at_key. unwrapped-commits id blob node at_key))
      ]

  genesis-IsSound :
      (epoch0_key : List ℕ) (entries : List KeyLogEntry)
      → Forall (IsSound blake3 entries) (put epoch0_id (genesis epoch0_key) [])
  genesis-IsSound epoch0_key entries id node at other = absurd (ground (arith, rw other at at))

  epochs_of-IsSound :
      (epoch0_key : List ℕ) (entries : List KeyLogEntry)
      → Forall
          (IsSound blake3 entries)
          (epochs_of crypto blake3 self_peer secret epoch0_key entries)
  epochs_of-IsSound epoch0_key entries =
      let start = put epoch0_id (genesis epoch0_key) [] in
      receive_all-Forall crypto blake3 self_peer secret (IsSound blake3 entries) entries
        (announce_all entries start) (add_recipient-IsSound entries)
        (announce_all-Forall (IsSound blake3 entries) entries start
          (λ e parents nonce m eq other.
            ((e, m, refl, refl, eq), λ key none_some. absurd (ground (arith, none_some))))
          (genesis-IsSound epoch0_key entries))

  -- Every epoch of a keychain but epoch 0 was announced by an entry, with its parents, its author
  -- and its nonce, and a key that the keychain has for it is one of 32 bytes that reproduces its
  -- id: no wrap installs a key of another choice, and none makes an epoch of its own.
  pub build-IsCommitted :
      (id_key epoch0_key : List ℕ) (entries : List KeyLogEntry) (id : List ℕ) (node : EpochNode)
      → find id (build crypto blake3 self_peer secret id_key epoch0_key entries).epochs ≡ some node
      → same_text id epoch0_id ≡ false
      → IsCommitted blake3 entries id node
  unfolding build
  build-IsCommitted id_key epoch0_key entries = epochs_of-IsSound epoch0_key entries

  -- A key that a keychain has for an epoch other than epoch 0 has 32 bytes, and is one that a digest
  -- equal to the id ends with.
  pub epoch_key-commits :
      (id_key epoch0_key : List ℕ) (entries : List KeyLogEntry) (id : List ℕ) {key : SecretKey}
      → epoch_key (build crypto blake3 self_peer secret id_key epoch0_key entries) id ≡ some key
      → same_text id epoch0_id ≡ false
      → (before : List ℕ) × (length key.bytes ≡ 32) × (blake3 (before ++ key.bytes) ≡ id)
  unfolding epoch_key compute_epoch_id
  epoch_key-commits id_key epoch0_key entries id {key} at other =
      let chain = build crypto blake3 self_peer secret id_key epoch0_key entries in
      elim (Option-cases (find id chain.epochs)) [
        | inl unknown ↦ absurd (ground (arith, rw unknown at at))
        | inr (node, known) ↦
            let h =
              (build-IsCommitted id_key epoch0_key entries id node known other).1 key
                (rw known at at) in
            let front = concat node.parents in
            let word = to_le_bytes 8 node.minted_by in
            let joined : (front ++ (word ++ node.nonce)) ++ key.bytes
                ≡ front ++ (word ++ (node.nonce ++ key.bytes)) =
              append_assoc front (word ++ node.nonce) key.bytes
              ∙ ap (λ rest. front ++ rest) (append_assoc word node.nonce key.bytes) in
            (front ++ (word ++ node.nonce), h.0, ap blake3 joined ∙ h.1)
      ]

-- Two texts that end with parts of one length have equal parts.
append-injective_end :
    (xs ys : List ℕ) {us vs : List ℕ} → length us ≡ length vs → xs ++ us ≡ ys ++ vs → us ≡ vs
append-injective_end xs ys {us} {vs} n e =
    let lengths : length xs + length us ≡ length ys + length vs =
      sym (length-append xs us) ∙ ap length e ∙ length-append ys vs in
    (append-injective xs ys (omega (arith, lengths, n)) e).1

-- Two devices that have a key for one epoch, other than epoch 0, have the same key, whatever entries
-- each of them knows and in whatever order, and whatever wraps each was given. The condition is that
-- the hash has no collisions.
pub build-agree :
    (blake3 : List ℕ → List ℕ)
    → ((xs ys : List ℕ) → blake3 xs ≡ blake3 ys → xs ≡ ys)
    → (crypto : KeyCrypto) (id : List ℕ) → same_text id epoch0_id ≡ false
    → (peer1 : ℕ) (secret1 id_key1 first1 : List ℕ) (entries1 : List KeyLogEntry) (key1 : SecretKey)
    → epoch_key (build crypto blake3 peer1 secret1 id_key1 first1 entries1) id ≡ some key1
    → (peer2 : ℕ) (secret2 id_key2 first2 : List ℕ) (entries2 : List KeyLogEntry) (key2 : SecretKey)
    → epoch_key (build crypto blake3 peer2 secret2 id_key2 first2 entries2) id ≡ some key2
    → key1 ≡ key2
build-agree blake3 collision_free crypto id other peer1 secret1 id_key1 first1 entries1 key1 h1
      peer2 secret2 id_key2 first2 entries2 key2 h2 =
    let (before1, length1, digest1) =
      epoch_key-commits crypto blake3 peer1 secret1 id_key1 first1 entries1 id h1 other in
    let (before2, length2, digest2) =
      epoch_key-commits crypto blake3 peer2 secret2 id_key2 first2 entries2 id h2 other in
    let same =
      collision_free (before1 ++ key1.bytes) (before2 ++ key2.bytes) (digest1 ∙ sym digest2) in
    ap (λ bytes. record { bytes = bytes })
      (append-injective_end before1 before2 (length1 ∙ sym length2) same)
