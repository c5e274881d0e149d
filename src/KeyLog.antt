-- ===== src/KeyLog.antt =====
-- The key log: crates/roam-storage/src/keylog.rs. Its entries and their signed bytes.
pub mod Canonical
mod Tests
use roam.Prelude.{ℕ, List, [], ◌∷◌, ◌++◌, length, ◌%◌, ◌^◌}
use roam.Prelude.Bytes.{codes, to_le_bytes}

pub data Recipient : Type 0 where
  device : (peer : ℕ) → Recipient
  paper : Recipient

pub data KeyBody : Type 0 where
  rotate : (parent_epochs : List (List ℕ)) (nonce : List ℕ) → KeyBody
  wrap : (recipient : Recipient) (blob : List ℕ) → KeyBody

pub record KeyLogEntry : Type 0 where
  pub seq : ℕ
  pub author : ℕ
  pub epoch_id : List ℕ
  pub body : KeyBody

abbrev pub concat : List (List ℕ) → List ℕ
concat [] = []
concat (x ∷ xs) = x ++ concat xs

-- `len() as u64` keeps the low 64 bits.
abbrev pub recipient_bytes : Recipient → List ℕ
recipient_bytes (device peer) = 0 ∷ to_le_bytes 8 peer
recipient_bytes paper = 1 ∷ []

abbrev pub body_bytes : KeyBody → List ℕ
body_bytes (rotate parent_epochs nonce) =
    0 ∷ (to_le_bytes 8 (length parent_epochs % 2 ^ 64) ++ (concat parent_epochs ++ nonce))
body_bytes (wrap recipient blob) =
    1 ∷ (recipient_bytes recipient ++ (to_le_bytes 8 (length blob % 2 ^ 64) ++ blob))

unfoldable pub canonical_bytes : KeyLogEntry → List ℕ
canonical_bytes e =
    codes "roam.keylog.v1"
    ++ (to_le_bytes 8 e.seq ++ (to_le_bytes 8 e.author ++ (e.epoch_id ++ body_bytes e.body)))
