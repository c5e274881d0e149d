-- ===== src/Log/Tests.antt =====
-- The theorems on the logs at concrete logs.
use roam.Prelude.{
  ℕ, Option, none, some, List, [], ◌∷◌, ◌++◌, replicate, ◌==◌, if◌then◌else◌, ◌≡◌, refl, Memᴰ,
  arith, ◌≢◌,
}
use roam.Prelude.Bytes.{codes}
use roam.Prelude.Text.{IsComplete, lines_from, lines}
use roam.Roster.Entry.{Role, RosterOp, RosterEntry}
use roam.Roster.Canonical.{canonical_bytes}
use roam.KeyLog.{KeyBody, rotate, wrap, device, KeyLogEntry, canonical_bytes as key_bytes}
use roam.Log.{malformed_entry, Result, ok, err, verify_text, verify_from}
use roam.Log.Reading.{IsLine, read_torn}
use roam.Log.OpLog
use roam.Log.RosterLog
use roam.Log.KeyLogFile
use roam.Log.Samples.{
  toy, toy-CryptoLaws, op_format, op_format-LineFormatLaws, roster_format, key_format,
}

-- A parser of lines "+..." and an acceptance that keeps the line.
abbrev parse_plus : List ℕ → Option (List ℕ)
parse_plus [] = none
parse_plus (c ∷ cs) = if c == b'+' then some cs else none

abbrev keep : List ℕ → Result (List ℕ)
keep cs = ok cs

abbrev two_lines : List ℕ
two_lines = b'+' ∷ b'a' ∷ 10 ∷ b'+' ∷ b'b' ∷ 10 ∷ []

two_lines-read : verify_text parse_plus keep two_lines ≡ ok ((b'a' ∷ []) ∷ (b'b' ∷ []) ∷ [])
unfolding verify_text verify_from lines lines_from
two_lines-read = refl

plus-IsLine : IsLine (b'+' ∷ b'c' ∷ [])
plus-IsLine = record {
  single = (λ e. absurd (omega (arith, e)), (λ e. absurd (omega (arith, e)), tt));
  shown = refl;
  whole = refl;
}

cut-IsLine : IsLine (b'{' ∷ b'+' ∷ b'c' ∷ [])
cut-IsLine = record {
  single = (
    λ e. absurd (omega (arith, e)),
    (λ e. absurd (omega (arith, e)), (λ e. absurd (omega (arith, e)), tt)),
  );
  shown = refl;
  whole = refl;
}

read_torn_example :
    verify_text parse_plus keep (two_lines ++ b'{' ∷ []) ≡ ok ((b'a' ∷ []) ∷ (b'b' ∷ []) ∷ [])
read_torn_example =
    read_torn parse_plus keep two_lines (b'{' ∷ []) refl two_lines-read
      ((λ e. absurd (omega (arith, e))), tt) (λ e. absurd (ground arith)) refl

-- A secret whose peer id is 5, and two updates.
abbrev secret : List ℕ
secret = 5 ∷ replicate 31 0

abbrev first_update : OpLog.Entry
first_update = record { peer_id = 5; update = 1 ∷ 2 ∷ [] }

abbrev op_file : List ℕ
op_file = OpLog.append toy op_format 5 secret (1 ∷ 2 ∷ []) []

op_file-read : OpLog.verify toy op_format 5 secret op_file ≡ ok (first_update ∷ [])
unfolding verify_text verify_from lines lines_from OpLog.verify OpLog.append OpLog.line_of
    OpLog.accept OpLog.sign_in_domain OpLog.verify_in_domain
op_file-read = refl

op_file-IsComplete : IsComplete op_file
unfolding OpLog.append OpLog.line_of OpLog.sign_in_domain
op_file-IsComplete = refl

op_verify-append_example :
    (OpLog.verify toy op_format 5 secret (OpLog.append toy op_format 5 secret (3 ∷ []) op_file)
      ≡ ok ((first_update ∷ []) ++ record { peer_id = 5; update = 3 ∷ [] } ∷ []))
    × IsComplete (OpLog.append toy op_format 5 secret (3 ∷ []) op_file)
op_verify-append_example =
    OpLog.op_verify-append toy op_format toy-CryptoLaws op_format-LineFormatLaws 5 secret (3 ∷ [])
      op_file (first_update ∷ []) op_file-IsComplete op_file-read

torn_tail-broken :
    op_format.from_str (b'{' ∷ op_format.to_vec (OpLog.line_of toy op_format 5 secret (3 ∷ [])))
    ≡ none
unfolding OpLog.line_of OpLog.sign_in_domain
torn_tail-broken = refl

op_append-torn_example :
    OpLog.verify toy op_format 5 secret
      (OpLog.append toy op_format 5 secret (3 ∷ []) (op_file ++ b'{' ∷ []))
    ≡ err malformed_entry
op_append-torn_example =
    OpLog.op_append-torn toy op_format op_format-LineFormatLaws 5 secret secret (3 ∷ []) op_file
      (b'{' ∷ []) (first_update ∷ []) op_file-IsComplete op_file-read (tail-HasNoNewline, tt)
      torn_tail-broken
  where
    tail-HasNoNewline : ◌≢◌ {A = ℕ} b'{' 10
    tail-HasNoNewline e = absurd (omega (arith, e))

-- An own roster log with one entry.
abbrev add_self : RosterEntry
add_self = record {
  seq = 1;
  lamport = 1;
  op = RosterOp.add Role.writer;
  subject_peer = 5;
  subject_key = secret;
  added_by = 5;
}

abbrev roster_file : List ℕ
roster_file = roster_format.to_vec (RosterLog.line_of toy roster_format secret add_self) ++ 10 ∷ []

roster_file-read : RosterLog.verify toy roster_format 5 secret roster_file ≡ ok (add_self ∷ [])
unfolding verify_text verify_from lines lines_from RosterLog.verify RosterLog.line_of
    RosterLog.accept canonical_bytes
roster_file-read = refl

abbrev rename_self : RosterEntry
rename_self =
    RosterLog.next_entry toy roster_format (RosterLog.peer_id_of toy roster_format secret) 2
      (RosterOp.set_name (codes "laptop")) 5 secret (RosterLog.last_seq_of (add_self ∷ []))

roster_verify-IsAuthentic_example : RosterLog.IsAuthentic toy roster_format 5 secret add_self
roster_verify-IsAuthentic_example =
    RosterLog.roster_verify-IsAuthentic toy roster_format 5 secret roster_file (add_self ∷ [])
      roster_file-read add_self (Memᴰ.head refl)

-- A key log with one rotation, and then a wrapped key.
abbrev first_rotation : KeyLogEntry
first_rotation = record {
  seq = 1;
  author = 5;
  epoch_id = replicate 32 7;
  body = rotate (replicate 32 1 ∷ replicate 32 2 ∷ []) (replicate 32 3);
}

abbrev key_file : List ℕ
key_file = key_format.to_vec (KeyLogFile.line_of toy key_format secret first_rotation) ++ 10 ∷ []

abbrev wrapped : KeyBody
wrapped = wrap (device 9) (1 ∷ 2 ∷ 3 ∷ [])

abbrev second_entry : KeyLogEntry
second_entry =
    KeyLogFile.next_entry toy key_format 5 (replicate 32 7) wrapped
      (KeyLogFile.last_seq_of (first_rotation ∷ []))
