-- ===== src/Log/RosterLog.antt =====
-- The roster log: `RosterLog` of crates/roam-storage/src/roster.rs.
use roam.Prelude.{
  ℕ, ◌+◌, ◌%◌, ◌^◌, true, false, not, Option, none, some, List, [], ◌∷◌, ◌++◌, length, take, ◌==◌,
  if◌then◌else◌, ◌≡◌, refl, Memᴰ, arith,
}
use roam.Prelude.Bytes.{from_le_bytes}
use roam.Roster.Entry.{RosterOp, RosterEntry}
use roam.Roster.Canonical.{canonical_bytes}
use roam.Log.{
  malformed_entry, StorageError, bad_signature, io, Result, ok, err, ◌>>=◌, ok_or, ok_or-eq_ok,
  guard-eq_ok, content_lines, verify_text, Crypto,
}
use roam.Log.Format.{FileRead, absent, unreadable, contents, LineFormat}
use roam.Log.Sound.{read_sound}

-- The fields of a line; the key and the signature are in base64.
pub record RosterLine : Type 0 where
  pub seq : ℕ
  pub lamport : ℕ
  pub op : RosterOp
  pub subject_peer : ℕ
  pub subject_key : List ℕ
  pub added_by : ℕ
  pub sig : List ℕ

abbrev pub entry_of : RosterLine → List ℕ → RosterEntry
entry_of line key = record {
  seq = line.seq;
  lamport = line.lamport;
  op = line.op;
  subject_peer = line.subject_peer;
  subject_key = key;
  added_by = line.added_by;
}

-- The sequence number of the last entry, or 0.
unfoldable pub last_seq_of : List RosterEntry → ℕ
last_seq_of [] = 0
last_seq_of (e ∷ []) = e.seq
last_seq_of (e ∷ d ∷ es) = last_seq_of (d ∷ es)

last_seq_of-snoc : (es : List RosterEntry) (e : RosterEntry) → last_seq_of (es ++ e ∷ []) ≡ e.seq
unfolding last_seq_of
last_seq_of-snoc [] e = refl
last_seq_of-snoc (d ∷ []) e = refl
last_seq_of-snoc (d ∷ c ∷ es) e = last_seq_of-snoc (c ∷ es) e

module _ (c : Crypto) (f : LineFormat RosterLine) where
  -- The body of the loop of `verify_text`, for a parsed line.
  unfoldable pub accept : (author : ℕ) (key : List ℕ) → RosterLine → Result RosterEntry
  accept author key line =
      if not (line.added_by == author) then err (bad_signature line.added_by) else do
        subject_key ← ok_or (c.decode line.subject_key) malformed_entry
        if not (length subject_key == 32) then err malformed_entry else do
          sig ← ok_or (c.decode line.sig) malformed_entry
          if not (length sig == 64)
              then err malformed_entry
              else if not (c.verify key (canonical_bytes (entry_of line subject_key)) sig)
              then err (bad_signature author)
              else ok (entry_of line subject_key)

  unfoldable pub verify : (author : ℕ) (key text : List ℕ) → Result (List RosterEntry)
  verify author key text = verify_text f.from_str (accept author key) text

  unfoldable pub read_verified : (author : ℕ) (key : List ℕ) → FileRead → Result (List RosterEntry)
  read_verified author key absent = ok []
  read_verified author key unreadable = err io
  read_verified author key (contents text) = verify author key text

  unfoldable pub last_seq : (author : ℕ) (key : List ℕ) → FileRead → Result ℕ
  last_seq author key file = do es ← read_verified author key file; ok (last_seq_of es)

  -- The bytes that the file holds; an absent file is created by the append.
  abbrev pub bytes_of : FileRead → List ℕ
  bytes_of absent = []
  bytes_of unreadable = []
  bytes_of (contents text) = text

  unfoldable pub line_of : List ℕ → RosterEntry → RosterLine
  line_of secret e = record {
    seq = e.seq;
    lamport = e.lamport;
    op = e.op;
    subject_peer = e.subject_peer;
    subject_key = c.encode e.subject_key;
    added_by = e.added_by;
    sig = c.encode (c.sign secret (canonical_bytes e));
  }

  -- `Identity::peer_id`: the first eight bytes of the public key.
  unfoldable pub peer_id_of : List ℕ → ℕ
  peer_id_of secret = from_le_bytes (take 8 (c.public_key secret))

  abbrev pub next_entry : ℕ → ℕ → RosterOp → ℕ → List ℕ → ℕ → RosterEntry
  next_entry author lamport op subject_peer subject_key last = record {
    seq = (last + 1) % 2 ^ 64;
    lamport = lamport;
    op = op;
    subject_peer = subject_peer;
    subject_key = subject_key;
    added_by = author;
  }

  -- `append`: the entry, and the file after it.
  unfoldable pub append :
      (author : ℕ) (secret : List ℕ) (lamport : ℕ) (op : RosterOp) (subject_peer : ℕ)
      (subject_key : List ℕ)
      → FileRead
      → Result (RosterEntry × List ℕ)
  append author secret lamport op subject_peer subject_key file =
      if not (peer_id_of secret == author) then err StorageError.peer else do
        last ← last_seq author (c.public_key secret) file
        let entry = next_entry author lamport op subject_peer subject_key last
        ok (entry, bytes_of file ++ (f.to_vec (line_of secret entry) ++ 10 ∷ []))

  -- `peek_self_key`, over the lines that are not blank: what does not parse is passed over.
  pub peek_lines : ℕ → List (List ℕ) → Option (List ℕ)
  peek_lines author [] = none
  peek_lines author (line ∷ rest) = elim (f.from_str line) [
    | none ↦ peek_lines author rest
    | some parsed ↦ elim (parsed.subject_peer == author) [
      | false ↦ peek_lines author rest
      | true ↦ elim (c.decode parsed.subject_key) [
        | none ↦ peek_lines author rest
        | some key ↦ elim (length key == 32) [ true ↦ some key | false ↦ peek_lines author rest ]
      ]
    ]
  ]

  pub peek_self_key : ℕ → FileRead → Result (Option (List ℕ))
  peek_self_key author absent = ok none
  peek_self_key author unreadable = err io
  peek_self_key author (contents text) = ok (peek_lines author (content_lines text))

  abbrev pub IsAuthentic : ℕ → List ℕ → RosterEntry → Type 0
  IsAuthentic author key e =
      (e.added_by ≡ author)
      × (length e.subject_key ≡ 32)
      × ((sig : List ℕ) × (length sig ≡ 64) × (c.verify key (canonical_bytes e) sig ≡ true))

  accept-IsAuthentic :
      (author : ℕ) (key : List ℕ) (line : RosterLine) {e : RosterEntry}
      → accept author key line ≡ ok e
      → IsAuthentic author key e
  unfolding accept
  accept-IsAuthentic author key line {e} h =
      let (same, h1) = guard-eq_ok (not (line.added_by == author)) _ _ h in
      let (k, at_key, h2) = ok_or-eq_ok (c.decode line.subject_key) _ _ h1 in
      let (sized, h3) = guard-eq_ok (not (length k == 32)) _ _ h2 in
      let (sig, at_sig, h4) = ok_or-eq_ok (c.decode line.sig) _ _ h3 in
      let (full, h5) = guard-eq_ok (not (length sig == 64)) _ _ h4 in
      let (signed, h6) =
        guard-eq_ok (not (c.verify key (canonical_bytes (entry_of line k)) sig)) _ _ h5 in
      let built : entry_of line k ≡ e = ground arith in
      let good : c.verify key (canonical_bytes (entry_of line k)) sig ≡ true = ground arith in
      (ground arith, ground arith, (sig, ground arith, rw built at good))

  -- Every entry of a log that verifies was written by the log's author, has a 32-byte key, and
  -- carries a 64-byte signature that the given key accepts for its canonical bytes.
  pub roster_verify-IsAuthentic :
      (author : ℕ) (key text : List ℕ) (es : List RosterEntry)
      → verify author key text ≡ ok es
      → (e : RosterEntry) → Memᴰ e es
      → IsAuthentic author key e
  unfolding verify
  roster_verify-IsAuthentic author key text es h e m =
      let (line, good) = read_sound f.from_str (accept author key) text es h e m in
      accept-IsAuthentic author key line good

  -- Nobody else can: an identity that is not the log's author is refused, and nothing is written.
  pub append_refused :
      (author : ℕ) (secret : List ℕ) (lamport : ℕ) (op : RosterOp) (subject_peer : ℕ)
      (subject_key : List ℕ) (file : FileRead)
      → ¬ (peer_id_of secret ≡ author)
      → append author secret lamport op subject_peer subject_key file ≡ err StorageError.peer
  unfolding append
  append_refused author secret lamport op subject_peer subject_key file other = ground arith
