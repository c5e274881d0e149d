-- ===== src/Log/KeyLogFile.antt =====
-- The key log's file: `KeyLog` of crates/roam-storage/src/keylog.rs.
use roam.Prelude.{
  ℕ, ◌+◌, ◌%◌, ◌^◌, true, not, List, [], ◌∷◌, ◌++◌, map, length, ◌==◌, if◌then◌else◌, ◌≡◌, Memᴰ,
  arith, All,
}
use roam.KeyLog.{Recipient, KeyBody, rotate, wrap, KeyLogEntry, canonical_bytes}
use roam.Log.{
  malformed_entry, StorageError, bad_signature, io, Result, ok, err, ◌>>=◌, ok_or, ok_or-eq_ok,
  guard-eq_ok, >>=-eq_ok, verify_text, Crypto,
}
use roam.Log.Format.{FileRead, absent, unreadable, contents, LineFormat}
use roam.Log.Sound.{read_sound}

-- `KeyBodyLine`: byte strings are in base64.
pub data KeyBodyLine : Type 0 where
  rotate_line : (parents : List (List ℕ)) (nonce : List ℕ) → KeyBodyLine
  wrap_line : (recipient : Recipient) (blob : List ℕ) → KeyBodyLine

pub record KeyLine : Type 0 where
  pub seq : ℕ
  pub author : ℕ
  pub epoch_id : List ℕ
  pub body : KeyBodyLine
  pub sig : List ℕ

unfoldable pub last_seq_of : List KeyLogEntry → ℕ
last_seq_of [] = 0
last_seq_of (e ∷ []) = e.seq
last_seq_of (e ∷ d ∷ es) = last_seq_of (d ∷ es)

module _ (c : Crypto) (f : LineFormat KeyLine) where
  unfoldable pub b64_32 : List ℕ → Result (List ℕ)
  b64_32 s = do
    v ← ok_or (c.decode s) malformed_entry
    if not (length v == 32) then err malformed_entry else ok v

  unfoldable pub b64_32_all : List (List ℕ) → Result (List (List ℕ))
  b64_32_all [] = ok []
  b64_32_all (s ∷ ss) = do v ← b64_32 s; vs ← b64_32_all ss; ok (v ∷ vs)

  unfoldable pub body_of : KeyBodyLine → Result KeyBody
  body_of (rotate_line parents nonce) = do
    ps ← b64_32_all parents
    n ← b64_32 nonce
    ok (rotate ps n)
  body_of (wrap_line recipient blob) = do
    b ← ok_or (c.decode blob) malformed_entry
    ok (wrap recipient b)

  abbrev pub entry_of : KeyLine → List ℕ → KeyBody → KeyLogEntry
  entry_of line epoch_id body = record {
    seq = line.seq;
    author = line.author;
    epoch_id = epoch_id;
    body = body;
  }

  -- The body of the loop of `verify_text`, for a parsed line.
  unfoldable pub accept : (author : ℕ) (key : List ℕ) → KeyLine → Result KeyLogEntry
  accept author key line =
      if not (line.author == author) then err (bad_signature line.author) else do
        body ← body_of line.body
        sig ← ok_or (c.decode line.sig) malformed_entry
        if not (length sig == 64) then err malformed_entry else do
          epoch_id ← b64_32 line.epoch_id
          if not (c.verify key (canonical_bytes (entry_of line epoch_id body)) sig)
              then err (bad_signature author)
              else ok (entry_of line epoch_id body)

  unfoldable pub verify : (author : ℕ) (key text : List ℕ) → Result (List KeyLogEntry)
  verify author key text = verify_text f.from_str (accept author key) text

  unfoldable pub read_verified : (author : ℕ) (key : List ℕ) → FileRead → Result (List KeyLogEntry)
  read_verified author key absent = ok []
  read_verified author key unreadable = err io
  read_verified author key (contents text) = verify author key text

  unfoldable pub last_seq : (author : ℕ) (key : List ℕ) → FileRead → Result ℕ
  last_seq author key file = do es ← read_verified author key file; ok (last_seq_of es)

  unfoldable pub body_line : KeyBody → KeyBodyLine
  body_line (rotate parents nonce) = rotate_line (map c.encode parents) (c.encode nonce)
  body_line (wrap recipient blob) = wrap_line recipient (c.encode blob)

  unfoldable pub line_of : List ℕ → KeyLogEntry → KeyLine
  line_of secret e = record {
    seq = e.seq;
    author = e.author;
    epoch_id = c.encode e.epoch_id;
    body = body_line e.body;
    sig = c.encode (c.sign secret (canonical_bytes e));
  }

  abbrev pub bytes_of : FileRead → List ℕ
  bytes_of absent = []
  bytes_of unreadable = []
  bytes_of (contents text) = text

  abbrev pub next_entry : ℕ → List ℕ → KeyBody → ℕ → KeyLogEntry
  next_entry author epoch_id body last = record {
    seq = (last + 1) % 2 ^ 64;
    author = author;
    epoch_id = epoch_id;
    body = body;
  }

  -- `append`, for an identity with the given peer id: the entry, and the file after it.
  unfoldable pub append :
      (peer_id author : ℕ) (secret epoch_id : List ℕ) (body : KeyBody)
      → FileRead
      → Result (KeyLogEntry × List ℕ)
  append peer_id author secret epoch_id body file =
      if not (peer_id == author) then err StorageError.peer else do
        last ← last_seq author (c.public_key secret) file
        let entry = next_entry author epoch_id body last
        ok (entry, bytes_of file ++ (f.to_vec (line_of secret entry) ++ 10 ∷ []))

  -- The lengths that the Rust types give.
  abbrev pub HasKeySizes : KeyBody → Type 0
  HasKeySizes (rotate parents nonce) =
      All (λ (p : List ℕ). length p ≡ 32) parents × (length nonce ≡ 32)
  HasKeySizes (wrap recipient blob) = Unit

  abbrev pub IsAuthentic : ℕ → List ℕ → KeyLogEntry → Type 0
  IsAuthentic author key e =
      (e.author ≡ author)
      × (length e.epoch_id ≡ 32)
      × ((sig : List ℕ) × (length sig ≡ 64) × (c.verify key (canonical_bytes e) sig ≡ true))

  b64_32-length : (s : List ℕ) {v : List ℕ} → b64_32 s ≡ ok v → length v ≡ 32
  unfolding b64_32
  b64_32-length s h =
      let (v, at_v, h1) = ok_or-eq_ok (c.decode s) _ _ h in
      let (sized, h2) = guard-eq_ok (not (length v == 32)) _ _ h1 in ground arith

  accept-IsAuthentic :
      (author : ℕ) (key : List ℕ) (line : KeyLine) {e : KeyLogEntry}
      → accept author key line ≡ ok e
      → IsAuthentic author key e
  unfolding accept
  accept-IsAuthentic author key line {e} h =
      let (same, h1) = guard-eq_ok (not (line.author == author)) _ _ h in
      let (body, at_body, h2) = >>=-eq_ok (body_of line.body) _ h1 in
      let (sig, at_sig, h3) = ok_or-eq_ok (c.decode line.sig) _ _ h2 in
      let (full, h4) = guard-eq_ok (not (length sig == 64)) _ _ h3 in
      let (epoch, at_epoch, h5) = >>=-eq_ok (b64_32 line.epoch_id) _ h4 in
      let (signed, h6) =
        guard-eq_ok (not (c.verify key (canonical_bytes (entry_of line epoch body)) sig)) _ _ h5 in
      let built : entry_of line epoch body ≡ e = ground arith in
      let good : c.verify key (canonical_bytes (entry_of line epoch body)) sig ≡ true =
        ground arith in
      let sized = b64_32-length line.epoch_id at_epoch in
      (ground arith, ground arith, (sig, ground arith, rw built at good))

  -- Every entry of a log that verifies was written by the log's author and carries a 64-byte
  -- signature that the given key accepts for its canonical bytes.
  pub key_verify-IsAuthentic :
      (author : ℕ) (key text : List ℕ) (es : List KeyLogEntry)
      → verify author key text ≡ ok es
      → (e : KeyLogEntry) → Memᴰ e es
      → IsAuthentic author key e
  unfolding verify
  key_verify-IsAuthentic author key text es h e m =
      let (line, good) = read_sound f.from_str (accept author key) text es h e m in
      accept-IsAuthentic author key line good
