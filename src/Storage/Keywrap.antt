-- ===== src/Storage/Keywrap.antt =====
-- Wrapping an epoch key for a device: crates/roam-storage/src/keywrap.rs. x25519, the key
-- derivation of blake3 and the cipher are parameters; the ephemeral secret and the nonce, which the
-- random generator draws, are arguments of `wrap`.
use roam.Prelude.{
  ℕ, true, false, Option, none, some, List, ◌++◌, length, length-append, take, drop, take-append,
  drop-append, ltb, ◌==◌, if◌then◌else◌, ◌≡◌, refl, ◌∙◌, arith, inl, inr, Bool-cases,
}
use roam.Prelude.Bytes.{codes}
use roam.Prelude.Outcomes.{Outcome, err, ok}
use roam.Storage.EpochCrypto.{Aead, AeadLaws}

pub record KeyCrypto : Type 0 where
  pub public_of : (secret : List ℕ) → List ℕ
  pub diffie_hellman : (secret public : List ℕ) → List ℕ
  pub derive_key : (context input : List ℕ) → List ℕ
  pub aead : Aead

-- Both sides of an exchange agree, and keys have 32 bytes.
pub record KeyCryptoLaws (crypto : KeyCrypto) : Type 0 where
  pub length-public_of : (secret : List ℕ) → length (crypto.public_of secret) ≡ 32
  pub length-derive_key : (context input : List ℕ) → length (crypto.derive_key context input) ≡ 32
  pub agree :
      (a b : List ℕ)
      → crypto.diffie_hellman a (crypto.public_of b) ≡ crypto.diffie_hellman b (crypto.public_of a)
  pub aead_laws : AeadLaws crypto.aead

-- `StorageError::Keywrap`
pub data KeywrapError : Type 0 where
  keywrap : KeywrapError

module _ (crypto : KeyCrypto) where
  unfoldable pub wrap_subkey : (shared eph_pub recipient_pub : List ℕ) → List ℕ
  wrap_subkey shared eph_pub recipient_pub =
      crypto.derive_key (codes "roam keywrap v1") (shared ++ (eph_pub ++ recipient_pub))

  unfoldable pub wrap : (eph_secret nonce recipient_pub key : List ℕ) → List ℕ
  wrap eph_secret nonce recipient_pub key =
      let eph_pub = crypto.public_of eph_secret in
      let shared = crypto.diffie_hellman eph_secret recipient_pub in
      let subkey = wrap_subkey shared eph_pub recipient_pub in
      eph_pub ++ (nonce ++ crypto.aead.encrypt subkey nonce key)

  -- A plaintext of 32 bytes is a key.
  abbrev pub as_key : Option (List ℕ) → Outcome KeywrapError (List ℕ)
  as_key none = err keywrap
  as_key (some bytes) = if length bytes == 32 then ok bytes else err keywrap

  unfoldable pub unwrap : (recipient_secret blob : List ℕ) → Outcome KeywrapError (List ℕ)
  unwrap recipient_secret blob =
      let eph_pub = take 32 blob in
      let nonce = take 24 (drop 32 blob) in
      let ct = drop 24 (drop 32 blob) in
      let shared = crypto.diffie_hellman recipient_secret eph_pub in
      let subkey = wrap_subkey shared eph_pub (crypto.public_of recipient_secret) in
      if ltb (length blob) 56 then err keywrap else as_key (crypto.aead.decrypt subkey nonce ct)

  as_key-length :
      (opened : Option (List ℕ)) {key : List ℕ} → as_key opened ≡ ok key → length key ≡ 32
  as_key-length none h = absurd (ground (arith, h))
  as_key-length (some bytes) h = elim (Bool-cases (length bytes == 32)) [
    | inl t ↦ ground (arith, rw t at h)
    | inr f ↦ absurd (ground (arith, rw f at h))
  ]

  -- What is unwrapped has 32 bytes.
  pub unwrap-length :
      (recipient_secret blob : List ℕ) {key : List ℕ}
      → unwrap recipient_secret blob ≡ ok key
      → length key ≡ 32
  unfolding unwrap
  unwrap-length recipient_secret blob h = elim (Bool-cases (ltb (length blob) 56)) [
    | inl t ↦ absurd (ground (arith, rw t at h))
    | inr f ↦
        let eph_pub = take 32 blob in
        let shared = crypto.diffie_hellman recipient_secret eph_pub in
        let subkey = wrap_subkey shared eph_pub (crypto.public_of recipient_secret) in
        as_key-length (crypto.aead.decrypt subkey (take 24 (drop 32 blob)) (drop 24 (drop 32 blob)))
          (rw f at h)
  ]

  wrap_subkey-length :
      KeyCryptoLaws crypto
      → (shared eph_pub recipient_pub : List ℕ)
      → length (wrap_subkey shared eph_pub recipient_pub) ≡ 32
  unfolding wrap_subkey
  wrap_subkey-length laws shared eph_pub recipient_pub =
      laws.length-derive_key (codes "roam keywrap v1") (shared ++ (eph_pub ++ recipient_pub))

  -- A blob in the layout of `wrap` is opened at its parts.
  unwrap-parts :
      (recipient_secret eph_pub nonce ct : List ℕ)
      → length eph_pub ≡ 32
      → length nonce ≡ 24
      → unwrap recipient_secret (eph_pub ++ (nonce ++ ct))
        ≡ as_key (
            crypto.aead.decrypt
              (wrap_subkey
                (crypto.diffie_hellman recipient_secret eph_pub)
                eph_pub
                (crypto.public_of recipient_secret))
              nonce
              ct)
  unfolding unwrap
  unwrap-parts recipient_secret eph_pub nonce ct e32 n24 =
      let long : ltb (length (eph_pub ++ (nonce ++ ct))) 56 ≡ false =
        ground (arith, length-append eph_pub (nonce ++ ct), length-append nonce ct) in
      rw
        (
          long,
          take-append 32 eph_pub (nonce ++ ct) e32,
          drop-append 32 eph_pub (nonce ++ ct) e32,
          take-append 24 nonce ct n24,
          drop-append 24 nonce ct n24,
        )
        refl

  -- A key of 32 bytes that was wrapped for a device is unwrapped with the device's secret.
  pub unwrap-wrap :
      KeyCryptoLaws crypto
      → (eph_secret nonce recipient_secret key : List ℕ) → length nonce ≡ 24
      → length key ≡ 32
      → unwrap recipient_secret (wrap eph_secret nonce (crypto.public_of recipient_secret) key)
        ≡ ok key
  unfolding wrap
  unwrap-wrap laws eph_secret nonce recipient_secret key n24 k32 =
      let eph_pub = crypto.public_of eph_secret in
      let recipient_pub = crypto.public_of recipient_secret in
      let shared = crypto.diffie_hellman eph_secret recipient_pub in
      let subkey = wrap_subkey shared eph_pub recipient_pub in
      let opened =
        laws.aead_laws.decrypt-encrypt subkey nonce key
          (wrap_subkey-length laws shared eph_pub recipient_pub) n24 in
      let fits : (length key == 32) ≡ true = ground (arith, k32) in
      let parts =
        unwrap-parts recipient_secret eph_pub nonce (crypto.aead.encrypt subkey nonce key)
          (laws.length-public_of eph_secret) n24 in
      parts ∙ rw (laws.agree recipient_secret eph_secret, opened, fits) refl
