-- ===== src/Keychain/Tests.antt =====
-- The theorems on the keychain at a small vault of two devices, and runs of its operations.
use roam.Prelude.{
  ℕ, false, some, List, [], ◌∷◌, ◌++◌, replicate, ◌≡◌, refl, ◌∙◌, ap, sym, inl, inr, Bool-cases,
  if◌then◌else◌,
}
use roam.Prelude.Bytes.{to_le_bytes}
use roam.Prelude.Keyed.{find, text_key}
use roam.Prelude.Trim.{same_text, same_text→eq}
use roam.KeyLog.{device, rotate, wrap, KeyLogEntry}
use roam.Storage.EpochCrypto.{Aead, AeadLaws, seal_epoch}
use roam.Storage.Keywrap.{KeyCrypto, unwrap}
use roam.Keychain.{
  epoch0_id, SecretKey, EpochNode, Keychain, build, epoch_key, head_write_key, compute_epoch_id,
  announce, receive_wrap, add_recipient, unwrapped, select_head, dag_heads,
}
use roam.Keychain.Commitment.{IsCommitted, build-IsCommitted, build-agree}
use roam.Keychain.Reading.{Reads, seal-read}
use roam.Keychain.Head.{IsLeast, build-head}

abbrev nonce : List ℕ
nonce = replicate 32 2

abbrev new_key : SecretKey
new_key = record { bytes = replicate 32 5 }

-- What the new epoch's id is the digest of.
abbrev preimage : List ℕ
preimage = epoch0_id ++ (to_le_bytes 8 1 ++ (nonce ++ new_key.bytes))

abbrev new_id : List ℕ
new_id = replicate 32 9

-- A function without collisions, which gives the new epoch an id of 32 bytes.
abbrev exchange : List ℕ → List ℕ
exchange xs = if same_text xs preimage then new_id else if same_text xs new_id then preimage else xs

exchange_twice : (xs : List ℕ) → exchange (exchange xs) ≡ xs
exchange_twice xs = elim (Bool-cases (same_text xs preimage)) [
  | inl t ↦ rw (same_text→eq xs preimage t) refl
  | inr n ↦ elim (Bool-cases (same_text xs new_id)) [
    | inl t ↦ rw (same_text→eq xs new_id t) refl
    | inr m ↦ rw (n, m) (rw (n, m) refl)
  ]
]

exchange-injective : (xs ys : List ℕ) → exchange xs ≡ exchange ys → xs ≡ ys
exchange-injective xs ys e = sym (exchange_twice xs) ∙ ap exchange e ∙ exchange_twice ys

-- A cipher that hides nothing.
abbrev plain : Aead
plain = record { encrypt = λ key nonce text. text; decrypt = λ key nonce ct. some ct }

plain_laws : AeadLaws plain
plain_laws = record { decrypt-encrypt = λ key nonce text k n. refl }

abbrev toy_crypto : KeyCrypto
toy_crypto = record {
  public_of = λ secret. replicate 32 0;
  diffie_hellman = λ secret public. [];
  derive_key = λ context input. replicate 32 0;
  aead = plain;
}

abbrev rotation : KeyLogEntry
rotation = record { seq = 0; author = 1; epoch_id = new_id; body = rotate (epoch0_id ∷ []) nonce }

abbrev wrap_for : ℕ → KeyLogEntry
wrap_for peer = record {
  seq = 1;
  author = 1;
  epoch_id = new_id;
  body = wrap (device peer) (replicate 56 0 ++ new_key.bytes);
}

abbrev forged : KeyLogEntry
forged = record {
  seq = 1;
  author = 3;
  epoch_id = new_id;
  body = wrap (device 2) (replicate 56 0 ++ replicate 32 6);
}

abbrev entries1 : List KeyLogEntry
entries1 = rotation ∷ wrap_for 1 ∷ []

abbrev entries2 : List KeyLogEntry
entries2 = forged ∷ wrap_for 2 ∷ rotation ∷ []

abbrev chain1 : Keychain
chain1 = build toy_crypto exchange 1 [] [] (replicate 32 1) entries1

abbrev chain2 : Keychain
chain2 = build toy_crypto exchange 2 [] [] (replicate 32 1) entries2

written : head_write_key chain1 ≡ some (new_id, new_key)
unfolding head_write_key epoch_key build select_head announce receive_wrap add_recipient unwrapped
    unwrap compute_epoch_id
written = refl

written_key : epoch_key chain1 new_id ≡ some new_key
unfolding epoch_key build announce receive_wrap add_recipient unwrapped unwrap compute_epoch_id
written_key = refl

held : epoch_key chain2 new_id ≡ some new_key
unfolding epoch_key build announce receive_wrap add_recipient unwrapped unwrap compute_epoch_id
held = refl

build-agree_example : new_key ≡ new_key
build-agree_example =
    build-agree exchange exchange-injective toy_crypto new_id refl 1 [] [] (replicate 32 1) entries1
      new_key written_key 2 [] [] (replicate 32 1) entries2 new_key held

seal-read_example :
    Reads plain chain2
      (seal_epoch plain (replicate 24 3) new_key.bytes new_id (1 ∷ 2 ∷ []))
      new_id
      (1 ∷ 2 ∷ [])
seal-read_example =
    seal-read exchange exchange-injective toy_crypto plain_laws new_id (replicate 24 3) (1 ∷ 2 ∷ [])
      refl refl refl 1 [] [] (replicate 32 1) entries1 new_key written 2 [] [] (replicate 32 1)
      entries2 new_key held

abbrev new_node : EpochNode
new_node = record {
  parents = epoch0_id ∷ [];
  minted_by = 1;
  nonce = nonce;
  key = some new_key;
  wrapped_to = 2 ∷ [];
  wrapped_paper = false;
}

known : find new_id chain2.epochs ≡ some new_node
unfolding build announce receive_wrap add_recipient unwrapped unwrap compute_epoch_id
known = refl

build-IsCommitted_example : IsCommitted exchange entries2 new_id new_node
build-IsCommitted_example =
    build-IsCommitted toy_crypto exchange 2 [] [] (replicate 32 1) entries2 new_id new_node known
      refl

build-head_example : IsLeast chain1.head (dag_heads chain1)
build-head_example = build-head toy_crypto exchange 1 [] [] (replicate 32 1) entries1

-- A rotation may name its own id and those of all others as parents: then no epoch is a leaf, and
-- the head is epoch 0 again.
abbrev circular : KeyLogEntry
circular = record rotation {
  epoch_id = replicate 32 8;
  body = rotate (epoch0_id ∷ new_id ∷ replicate 32 8 ∷ []) nonce;
}

head-circular :
    (build toy_crypto exchange 1 [] [] (replicate 32 1) (circular ∷ entries1)).head ≡ epoch0_id
unfolding build select_head announce receive_wrap add_recipient unwrapped unwrap compute_epoch_id
head-circular = refl
