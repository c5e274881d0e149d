-- ===== src/Log/OpLog.antt =====
-- The op log: crates/roam-storage/src/oplog.rs.
use roam.Prelude.{
  ℕ, Bool, true, not, none, List, [], ◌∷◌, ◌++◌, length, ◌==◌, if◌then◌else◌, ◌≡◌, Memᴰ, arith,
  ==_self,
}
use roam.Prelude.Bytes.{codes}
use roam.Prelude.Text.{IsComplete, HasNoNewline}
use roam.Log.{
  malformed_entry, bad_signature, io, Result, ok, err, ◌>>=◌, ok_or, ok_or-eq_ok, guard-eq_ok,
  verify_text, Crypto, CryptoLaws,
}
use roam.Log.Format.{FileRead, absent, unreadable, contents, LineFormat, LineFormatLaws}
use roam.Log.Sound.{read_sound}
use roam.Log.Reading.{read_appended, append-IsComplete, append_after_torn, IsLine-append}

-- `OPLOG_SIG_DOMAIN`
abbrev pub oplog_sig_domain : List ℕ
oplog_sig_domain = codes "roam-oplog-update-v1" ++ 0 ∷ []

pub record Entry : Type 0 where
  pub peer_id : ℕ
  pub update : List ℕ

-- The fields of a line; `sig` and `update` are in base64.
pub record EntryLine : Type 0 where
  pub peer : ℕ
  pub sig : List ℕ
  pub update : List ℕ

module _ (c : Crypto) (f : LineFormat EntryLine) where
  -- `sign_in_domain`, `verify_in_domain`: the tag stands in front of the signed bytes.
  unfoldable pub sign_in_domain : (domain secret message : List ℕ) → List ℕ
  sign_in_domain domain secret message = c.sign secret (domain ++ message)

  unfoldable pub verify_in_domain : (domain key message signature : List ℕ) → Bool
  verify_in_domain domain key message signature = c.verify key (domain ++ message) signature

  -- The body of the loop of `verify_text`, for a parsed line.
  unfoldable pub accept : (peer_id : ℕ) (key : List ℕ) → EntryLine → Result Entry
  accept peer_id key line = if not (line.peer == peer_id) then err (bad_signature line.peer) else do
    update ← ok_or (c.decode line.update) malformed_entry
    sig ← ok_or (c.decode line.sig) malformed_entry
    if not (length sig == 64)
        then err malformed_entry
        else if verify_in_domain oplog_sig_domain key update sig
        then ok (record { peer_id = line.peer; update = update })
        else err (bad_signature line.peer)

  unfoldable pub verify : (peer_id : ℕ) (key text : List ℕ) → Result (List Entry)
  verify peer_id key text = verify_text f.from_str (accept peer_id key) text

  unfoldable pub read_verified : (peer_id : ℕ) (key : List ℕ) → FileRead → Result (List Entry)
  read_verified peer_id key absent = ok []
  read_verified peer_id key unreadable = err io
  read_verified peer_id key (contents text) = verify peer_id key text

  -- The line that `append` writes, and the file after it.
  unfoldable pub line_of : (peer_id : ℕ) (secret update : List ℕ) → EntryLine
  line_of peer_id secret update = record {
    peer = peer_id;
    sig = c.encode (sign_in_domain oplog_sig_domain secret update);
    update = c.encode update;
  }

  unfoldable pub append : (peer_id : ℕ) (secret update file : List ℕ) → List ℕ
  append peer_id secret update file = file ++ (f.to_vec (line_of peer_id secret update) ++ 10 ∷ [])

  accept-IsAuthentic :
      (peer_id : ℕ) (key : List ℕ) (line : EntryLine) {e : Entry}
      → accept peer_id key line ≡ ok e
      → (e.peer_id ≡ peer_id)
        × ((sig : List ℕ) × (length sig ≡ 64)
            × (c.verify key (oplog_sig_domain ++ e.update) sig ≡ true))
  unfolding accept verify_in_domain
  accept-IsAuthentic peer_id key line h =
      let (same, h1) = guard-eq_ok (not (line.peer == peer_id)) _ _ h in
      let (update, at_update, h2) = ok_or-eq_ok (c.decode line.update) _ _ h1 in
      let (sig, at_sig, h3) = ok_or-eq_ok (c.decode line.sig) _ _ h2 in
      let (sized, h4) = guard-eq_ok (not (length sig == 64)) _ _ h3 in
      (ground arith, (sig, ground arith, ground arith))

  -- Every entry of a log that verifies belongs to the log's peer and carries a 64-byte signature
  -- that the given key accepts for its update, in the domain of the op log.
  pub op_verify_authentic :
      (peer_id : ℕ) (key text : List ℕ) (es : List Entry)
      → verify peer_id key text ≡ ok es
      → (e : Entry) → Memᴰ e es
      → (e.peer_id ≡ peer_id)
        × ((sig : List ℕ) × (length sig ≡ 64)
            × (c.verify key (oplog_sig_domain ++ e.update) sig ≡ true))
  unfolding verify
  op_verify_authentic peer_id key text es h e m =
      let (line, good) = read_sound f.from_str (accept peer_id key) text es h e m in
      accept-IsAuthentic peer_id key line good

  accept-line_of :
      CryptoLaws c
      → (peer_id : ℕ) (secret update : List ℕ)
      → accept peer_id (c.public_key secret) (line_of peer_id secret update)
        ≡ ok (record { peer_id = peer_id; update = update })
  unfolding accept line_of sign_in_domain verify_in_domain
  accept-line_of laws peer_id secret update = ground (
    arith,
    ==_self peer_id,
    laws.decode-encode update,
    laws.decode-encode (c.sign secret (oplog_sig_domain ++ update)),
    laws.length-sign secret (oplog_sig_domain ++ update),
    laws.verify-sign secret (oplog_sig_domain ++ update),
  )

  -- With lawful base64, signatures and JSON, what a device appends to its log of complete lines,
  -- which verifies, is read back behind all that was there before, and the log again has complete
  -- lines.
  pub op_verify-append :
      CryptoLaws c
      → LineFormatLaws f
      → (peer_id : ℕ) (secret update file : List ℕ) (es : List Entry) → IsComplete file
      → verify peer_id (c.public_key secret) file ≡ ok es
      → (verify peer_id (c.public_key secret) (append peer_id secret update file)
          ≡ ok (es ++ record { peer_id = peer_id; update = update } ∷ []))
        × IsComplete (append peer_id secret update file)
  unfolding verify append
  op_verify-append laws json peer_id secret update file es whole h =
      let line = line_of peer_id secret update in
      (
        read_appended f.from_str (accept peer_id (c.public_key secret)) file (f.to_vec line) whole h
            (json.to_vec-IsLine line) (json.from_str-to_vec line)
            (accept-line_of laws peer_id secret update),
        append-IsComplete file (f.to_vec line),
      )

  -- With lawful JSON, an append does not repair the log that a crash has torn: where the log has
  -- complete lines that verify and then a torn tail, and the tail together with the appended line is
  -- not a line in JSON, the log after the append is refused as a whole, with all its former entries.
  pub op_append-torn :
      LineFormatLaws f
      → (peer_id : ℕ) (key secret update file tail : List ℕ) (es : List Entry) → IsComplete file
      → verify peer_id key file ≡ ok es
      → HasNoNewline tail
      → f.from_str (tail ++ f.to_vec (line_of peer_id secret update)) ≡ none
      → verify peer_id key (append peer_id secret update (file ++ tail)) ≡ err malformed_entry
  unfolding verify append
  op_append-torn json peer_id key secret update file tail es whole h single broken =
      let line = f.to_vec (line_of peer_id secret update) in
      append_after_torn f.from_str (accept peer_id key) file tail line whole h
        (IsLine-append tail line single (json.to_vec-IsLine (line_of peer_id secret update))) broken
