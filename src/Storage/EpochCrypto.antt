-- ===== src/Storage/EpochCrypto.antt =====
-- Ciphertexts tagged with their epoch: crates/roam-storage/src/epoch_crypto.rs. The cipher is a
-- parameter, and so is the nonce that the random generator draws.
use roam.Prelude.{ℕ, Option, none, some, List, ◌++◌, length, take, drop, ltb, if◌then◌else◌, ◌≡◌}
use roam.Prelude.Outcomes.{Outcome, err, ok}

-- XChaCha20-Poly1305
pub record Aead : Type 0 where
  pub encrypt : (key nonce plaintext : List ℕ) → List ℕ
  pub decrypt : (key nonce ct : List ℕ) → Option (List ℕ)

-- A ciphertext is opened under the key and the nonce that it was made with.
pub record AeadLaws (aead : Aead) : Type 0 where
  pub decrypt-encrypt :
      (key nonce plaintext : List ℕ)
      → length key ≡ 32
      → length nonce ≡ 24
      → aead.decrypt key nonce (aead.encrypt key nonce plaintext) ≡ some plaintext

pub data CryptoError : Type 0 where
  short not_opened : CryptoError

module _ (aead : Aead) where
  unfoldable pub seal_epoch : (nonce epoch_key epoch_id plaintext : List ℕ) → List ℕ
  seal_epoch nonce epoch_key epoch_id plaintext =
      epoch_id ++ (nonce ++ aead.encrypt epoch_key nonce plaintext)

  unfoldable pub open_epoch : (epoch_key body : List ℕ) → Outcome CryptoError (List ℕ)
  open_epoch epoch_key body =
      if ltb (length body) 24
      then err short
      else elim (aead.decrypt epoch_key (take 24 body) (drop 24 body)) [
        | none ↦ err not_opened
        | some plaintext ↦ ok plaintext
      ]
