-- ===== src/Keychain/Reading.antt =====
-- What one device seals under its write head, another reads: crates/roam-storage/src/keychain.rs and
-- crates/roam-storage/src/epoch_crypto.rs.
use roam.Prelude.{
  ℕ, true, false, not, ◌&&◌, Option, some, List, ◌++◌, length, length-append, take, drop,
  take-append, drop-append, leb, ltb, ◌≡◌, refl, arith, ◌∙◌, ap, sym, inl, inr, Option-cases,
}
use roam.Prelude.Outcomes.{ok}
use roam.Prelude.Keyed.{find, text_key}
use roam.Prelude.Trim.{same_text}
use roam.KeyLog.{KeyLogEntry}
use roam.Storage.EpochCrypto.{Aead, AeadLaws, seal_epoch, open_epoch}
use roam.Storage.Keywrap.{KeyCrypto}
use roam.Keychain.{epoch0_id, SecretKey, Keychain, build, epoch_key, head_write_key, classify}
use roam.Keychain.Commitment.{epoch_key-commits, build-agree}

-- A payload that begins with the id of a known epoch other than epoch 0 is read under its key.
pub classify-tagged :
    (chain : Keychain) (id body : List ℕ) {key : SecretKey}
    → length id ≡ 32
    → same_text id epoch0_id ≡ false
    → epoch_key chain id ≡ some key
    → classify chain (id ++ body) ≡ record { epoch = id; key = some key; body_offset = 32 }
unfolding classify epoch_key
classify-tagged chain id body {key} long other at =
    let tagged : (leb 32 (length (id ++ body)) && not (same_text (take 32 (id ++ body)) epoch0_id))
        ≡ true =
      let enough : leb 32 (length (id ++ body)) ≡ true = ground (arith, length-append id body) in
      rw (enough, take-append 32 id body long, other) refl in
    elim (Option-cases (find id chain.epochs)) [
      | inl unknown ↦ absurd (ground (arith, rw unknown at at))
      | inr (node, known) ↦
          let held : node.key ≡ some key = rw known at at in
          let prefix = take 32 (id ++ body) in
          let known' : find prefix chain.epochs ≡ some node =
            ap (λ i. find i chain.epochs) (take-append 32 id body long) ∙ known in
          rw (tagged, known', held)
            (ap (λ i. record { epoch = i; key = some key; body_offset = 32 })
              (take-append 32 id body long))
    ]

-- A body with the nonce in front is opened under the key that it was sealed with.
open_epoch-sealed :
    (aead : Aead)
    → AeadLaws aead
    → (nonce key plaintext : List ℕ) → length nonce ≡ 24
    → length key ≡ 32
    → open_epoch aead key (nonce ++ aead.encrypt key nonce plaintext) ≡ ok plaintext
unfolding open_epoch
open_epoch-sealed aead laws nonce key plaintext n24 k32 =
    let ct = aead.encrypt key nonce plaintext in
    let long : ltb (length (nonce ++ ct)) 24 ≡ false = ground (arith, length-append nonce ct) in
    rw
      (
        long,
        take-append 24 nonce ct n24,
        drop-append 24 nonce ct n24,
        laws.decrypt-encrypt key nonce plaintext k32 n24,
      )
      refl

head_write_key-eq_some :
    (chain : Keychain) {id : List ℕ} {key : SecretKey}
    → head_write_key chain ≡ some (id, key)
    → epoch_key chain id ≡ some key
unfolding head_write_key
head_write_key-eq_some chain {id} {key} h = elim (Option-cases (epoch_key chain chain.head)) [
  | inl none_held ↦ absurd (ground (arith, rw (head_write_key, none_held) at h))
  | inr (held, e) ↦
      let here : ◌≡◌ {A = Option (List ℕ × SecretKey)} (some (chain.head, held)) (some (id, key)) =
        rw (head_write_key, e) at h in
      let at_head : chain.head ≡ id = cc in
      let same : held ≡ key = cc in rw (sym at_head) (e ∙ ap some same)
]

-- How a reader opens a payload: under the plan's key, from the plan's offset on.
abbrev pub Reads : Aead → Keychain → (payload id plaintext : List ℕ) → Type 0
Reads aead chain payload id plaintext =
    let plan = classify chain payload in
    (plan.epoch ≡ id)
    × ((key : SecretKey) × (plan.key ≡ some key)
        × (open_epoch aead key.bytes (drop plan.body_offset payload) ≡ ok plaintext))

-- What one device seals under the key of its write head is read by every device that has a key for
-- that epoch: the payload is recognised as of this epoch and opened to the plaintext. The two may
-- know different entries. The conditions are that the head is not epoch 0, that its id has 32 bytes
-- and the nonce 24, that the hash has no collisions, and that the cipher is lawful.
pub seal-read :
    (blake3 : List ℕ → List ℕ)
    → ((xs ys : List ℕ) → blake3 xs ≡ blake3 ys → xs ≡ ys)
    → (crypto : KeyCrypto) → AeadLaws crypto.aead
    → (id nonce plaintext : List ℕ) → length id ≡ 32
    → length nonce ≡ 24
    → same_text id epoch0_id ≡ false
    → (peer1 : ℕ) (secret1 id_key1 first1 : List ℕ) (entries1 : List KeyLogEntry) (key1 : SecretKey)
    → head_write_key (build crypto blake3 peer1 secret1 id_key1 first1 entries1) ≡ some (id, key1)
    → (peer2 : ℕ) (secret2 id_key2 first2 : List ℕ) (entries2 : List KeyLogEntry) (key2 : SecretKey)
    → epoch_key (build crypto blake3 peer2 secret2 id_key2 first2 entries2) id ≡ some key2
    → Reads crypto.aead
        (build crypto blake3 peer2 secret2 id_key2 first2 entries2)
        (seal_epoch crypto.aead nonce key1.bytes id plaintext)
        id
        plaintext
unfolding seal_epoch
seal-read blake3 collision_free crypto laws id nonce plaintext id32 n24 other peer1 secret1 id_key1
      first1 entries1 key1 h1 peer2 secret2 id_key2 first2 entries2 key2 h2 =
    let writer = build crypto blake3 peer1 secret1 id_key1 first1 entries1 in
    let reader = build crypto blake3 peer2 secret2 id_key2 first2 entries2 in
    let written = head_write_key-eq_some writer h1 in
    let same : key1 ≡ key2 =
      build-agree blake3 collision_free crypto id other peer1 secret1 id_key1 first1 entries1 key1
        written peer2 secret2 id_key2 first2 entries2 key2 h2 in
    let (before, k32, digest) =
      epoch_key-commits crypto blake3 peer1 secret1 id_key1 first1 entries1 id written other in
    let body = nonce ++ crypto.aead.encrypt key1.bytes nonce plaintext in
    let plan = classify-tagged reader id body id32 other (h2 ∙ ap some (sym same)) in
    rw plan (
      refl,
      (
        key1,
        refl,
        rw (drop-append 32 id body id32)
            (open_epoch-sealed crypto.aead laws nonce key1.bytes plaintext n24 k32),
      ),
    )
