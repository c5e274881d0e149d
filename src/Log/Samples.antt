-- ===== src/Log/Samples.antt =====
-- A toy base64, signature scheme and line format with the laws that the logs ask for.
use roam.Prelude.{
  ℕ, zero, suc, ◌+◌, ◌-◌, ◌≤◌, Bool, true, false, ◌&&◌, Option, none, some, List, [], ◌∷◌, ◌++◌,
  map, length, take, drop, replicate, length-append, length-replicate, take-append, drop-append,
  ◌==◌, ==_self, if◌then◌else◌, ◌≡◌, refl, arith, ◌∙◌, ap,
}
use roam.Prelude.Text.{strip_cr, HasNoNewline}
use roam.Roster.Entry.{Role, RosterOp}
use roam.KeyLog.{device, paper}
use roam.Log.{Crypto, CryptoLaws}
use roam.Log.Format.{LineFormat, LineFormatLaws}
use roam.Log.Reading.{IsLine}
use roam.Log.OpLog.{EntryLine}
use roam.Log.RosterLog.{RosterLine}
use roam.Log.KeyLogFile.{KeyBodyLine, rotate_line, wrap_line, KeyLine}

abbrev same_bytes : List ℕ → List ℕ → Bool
same_bytes [] [] = true
same_bytes [] (b ∷ bs) = false
same_bytes (a ∷ cs) [] = false
same_bytes (a ∷ cs) (b ∷ bs) = a == b && same_bytes cs bs

same_bytes_self : (xs : List ℕ) → same_bytes xs xs ≡ true
same_bytes_self [] = refl
same_bytes_self (x ∷ xs) = ground (arith, ==_self x, same_bytes_self xs)

length-take : (n : ℕ) (xs : List ℕ) → n ≤ length xs → length (take n xs) ≡ n
length-take zero xs h = refl
length-take (suc n) [] h = absurd (omega (arith, h))
length-take (suc n) (x ∷ xs) h = ap suc (length-take n xs (omega (arith, h)))

-- A "signature": the first 64 bytes of the secret, the message and zeros.
abbrev toy_sign : List ℕ → List ℕ → List ℕ
toy_sign secret message = take 64 ((secret ++ message) ++ replicate 64 0)

abbrev pub toy : Crypto
toy = record {
  encode = λ bytes. bytes;
  decode = λ bytes. some bytes;
  public_key = λ secret. secret;
  sign = toy_sign;
  verify = λ key message signature. same_bytes signature (toy_sign key message);
}

pub toy-CryptoLaws : CryptoLaws toy
toy-CryptoLaws = record {
  decode-encode = λ bytes. refl;
  length-sign = λ secret message. length-take 64 ((secret ++ message) ++ replicate 64 0) (
      omega
        (arith, length-append (secret ++ message) (replicate 64 0), length-replicate {A = ℕ} 64 0));
  verify-sign = λ secret message. same_bytes_self (toy_sign secret message);
}

-- Numbers as a line: a capital L, then every number as a character above the control characters.
abbrev line_of_numbers : List ℕ → List ℕ
line_of_numbers ns = 76 ∷ map (λ n. n + 14) ns

abbrev numbers_of_line : List ℕ → Option (List ℕ)
numbers_of_line [] = none
numbers_of_line (c ∷ cs) = if c == 76 then some (map (λ n. n - 14) cs) else none

map_back : (ns : List ℕ) → map (λ n. n - 14) (map (λ n. n + 14) ns) ≡ ns
map_back [] = refl
map_back (n ∷ ns) = ground (arith, map_back ns)

numbers_single : (ns : List ℕ) → HasNoNewline (map (λ n. n + 14) ns)
numbers_single [] = tt
numbers_single (n ∷ ns) = (λ e. absurd (omega (arith, e)), numbers_single ns)

strip-numbers :
    (c : ℕ) (ns : List ℕ) → 14 ≤ c → strip_cr (c ∷ map (λ n. n + 14) ns) ≡ c ∷ map (λ n. n + 14) ns
strip-numbers c [] h = ground (arith, h)
strip-numbers c (n ∷ ns) h = ap (λ cs. c ∷ cs) (strip-numbers (n + 14) ns (omega arith))

numbers-IsLine : (ns : List ℕ) → IsLine (line_of_numbers ns)
numbers-IsLine ns = record {
  single = (λ e. absurd (omega (arith, e)), numbers_single ns);
  shown = refl;
  whole = strip-numbers 76 ns (omega arith);
}

-- The format for lines that are coded as numbers.
module _ {Line : Type 0} (code : Line → List ℕ) (read : List ℕ → Option Line) where
  abbrev format : LineFormat Line
  format = record {
    from_str = λ text. elim (numbers_of_line text) [ none ↦ none | some ns ↦ read ns ];
    to_vec = λ line. line_of_numbers (code line);
  }

  format-LineFormatLaws : ((l : Line) → read (code l) ≡ some l) → LineFormatLaws format
  format-LineFormatLaws read-code = record {
    from_str-to_vec = λ line. ap read (map_back (code line)) ∙ read-code line;
    to_vec-IsLine = λ line. numbers-IsLine (code line);
  }

-- A list in front of more.
abbrev put : List ℕ → List ℕ → List ℕ
put xs rest = length xs ∷ xs ++ rest

abbrev op_line_code : EntryLine → List ℕ
op_line_code l = l.peer ∷ put l.sig l.update

abbrev op_line_read : List ℕ → Option EntryLine
op_line_read [] = none
op_line_read (p ∷ []) = none
op_line_read (p ∷ n ∷ cs) = some (record { peer = p; sig = take n cs; update = drop n cs })

op_line_read-code : (l : EntryLine) → op_line_read (op_line_code l) ≡ some l
op_line_read-code l =
    rw (take-append (length l.sig) l.sig l.update refl)
      (rw (drop-append (length l.sig) l.sig l.update refl) refl)

abbrev pub op_format : LineFormat EntryLine
op_format = format op_line_code op_line_read

pub op_format-LineFormatLaws : LineFormatLaws op_format
op_format-LineFormatLaws = format-LineFormatLaws op_line_code op_line_read op_line_read-code

abbrev role_read : ℕ → Role
role_read zero = Role.reader
role_read (suc zero) = Role.writer
role_read (suc (suc n)) = Role.admin

abbrev op_code : RosterOp → List ℕ
op_code (RosterOp.add Role.reader) = 0 ∷ 0 ∷ []
op_code (RosterOp.add Role.writer) = 0 ∷ 1 ∷ []
op_code (RosterOp.add Role.admin) = 0 ∷ 2 ∷ []
op_code (RosterOp.set_role Role.reader) = 1 ∷ 0 ∷ []
op_code (RosterOp.set_role Role.writer) = 1 ∷ 1 ∷ []
op_code (RosterOp.set_role Role.admin) = 1 ∷ 2 ∷ []
op_code RosterOp.revoke = 2 ∷ []
op_code (RosterOp.set_name name) = 3 ∷ name

abbrev op_read : List ℕ → RosterOp
op_read (zero ∷ r ∷ cs) = RosterOp.add (role_read r)
op_read (suc zero ∷ r ∷ cs) = RosterOp.set_role (role_read r)
op_read (suc (suc (suc n)) ∷ cs) = RosterOp.set_name cs
op_read _ = RosterOp.revoke

op_read-code : (op : RosterOp) → op_read (op_code op) ≡ op
op_read-code (RosterOp.add Role.reader) = refl
op_read-code (RosterOp.add Role.writer) = refl
op_read-code (RosterOp.add Role.admin) = refl
op_read-code (RosterOp.set_role Role.reader) = refl
op_read-code (RosterOp.set_role Role.writer) = refl
op_read-code (RosterOp.set_role Role.admin) = refl
op_read-code RosterOp.revoke = refl
op_read-code (RosterOp.set_name name) = refl

abbrev roster_line_code : RosterLine → List ℕ
roster_line_code l =
    l.seq ∷ l.lamport ∷ l.subject_peer ∷ l.added_by ∷ put l.subject_key (put l.sig (op_code l.op))

abbrev roster_tail_read : RosterLine → List ℕ → Option RosterLine
roster_tail_read l [] = none
roster_tail_read l (m ∷ ds) = some (record {
  seq = l.seq;
  lamport = l.lamport;
  op = op_read (drop m ds);
  subject_peer = l.subject_peer;
  subject_key = l.subject_key;
  added_by = l.added_by;
  sig = take m ds;
})

abbrev roster_line_read : List ℕ → Option RosterLine
roster_line_read (q ∷ t ∷ p ∷ a ∷ n ∷ cs) =
    roster_tail_read
      (record {
        seq = q;
        lamport = t;
        op = RosterOp.revoke;
        subject_peer = p;
        subject_key = take n cs;
        added_by = a;
        sig = [];
      })
      (drop n cs)
roster_line_read _ = none

roster_line_read-code : (l : RosterLine) → roster_line_read (roster_line_code l) ≡ some l
roster_line_read-code l =
    rw (take-append (length l.subject_key) l.subject_key (put l.sig (op_code l.op)) refl) (
      rw (drop-append (length l.subject_key) l.subject_key (put l.sig (op_code l.op)) refl) (
        rw (take-append (length l.sig) l.sig (op_code l.op) refl) (
          rw (drop-append (length l.sig) l.sig (op_code l.op) refl) (rw (op_read-code l.op) refl))))

abbrev pub roster_format : LineFormat RosterLine
roster_format = format roster_line_code roster_line_read

pub roster_format-LineFormatLaws : LineFormatLaws roster_format
roster_format-LineFormatLaws =
    format-LineFormatLaws roster_line_code roster_line_read roster_line_read-code

abbrev put_all : List (List ℕ) → List ℕ → List ℕ
put_all [] rest = rest
put_all (xs ∷ xss) rest = put xs (put_all xss rest)

abbrev take_all : ℕ → List ℕ → List (List ℕ)
take_all zero cs = []
take_all (suc k) [] = []
take_all (suc k) (n ∷ cs) = take n cs ∷ take_all k (drop n cs)

abbrev drop_all : ℕ → List ℕ → List ℕ
drop_all zero cs = cs
drop_all (suc k) [] = []
drop_all (suc k) (n ∷ cs) = drop_all k (drop n cs)

take_all-put_all :
    (xss : List (List ℕ)) (rest : List ℕ) → take_all (length xss) (put_all xss rest) ≡ xss
take_all-put_all [] rest = refl
take_all-put_all (xs ∷ xss) rest = rw (take-append (length xs) xs (put_all xss rest) refl) (
    rw (drop-append (length xs) xs (put_all xss rest) refl)
      (ap (λ yss. xs ∷ yss) (take_all-put_all xss rest)))

drop_all-put_all :
    (xss : List (List ℕ)) (rest : List ℕ) → drop_all (length xss) (put_all xss rest) ≡ rest
drop_all-put_all [] rest = refl
drop_all-put_all (xs ∷ xss) rest =
    rw (drop-append (length xs) xs (put_all xss rest) refl) (drop_all-put_all xss rest)

abbrev body_code : KeyBodyLine → List ℕ
body_code (rotate_line parents nonce) = 0 ∷ length parents ∷ put_all parents nonce
body_code (wrap_line (device peer) blob) = 1 ∷ peer ∷ blob
body_code (wrap_line paper blob) = 2 ∷ blob

abbrev body_read : List ℕ → KeyBodyLine
body_read (zero ∷ k ∷ cs) = rotate_line (take_all k cs) (drop_all k cs)
body_read (suc zero ∷ peer ∷ cs) = wrap_line (device peer) cs
body_read (suc (suc n) ∷ cs) = wrap_line paper cs
body_read _ = wrap_line paper []

body_read-code : (b : KeyBodyLine) → body_read (body_code b) ≡ b
body_read-code (rotate_line parents nonce) =
    rw (take_all-put_all parents nonce) (rw (drop_all-put_all parents nonce) refl)
body_read-code (wrap_line (device peer) blob) = refl
body_read-code (wrap_line paper blob) = refl

abbrev key_line_code : KeyLine → List ℕ
key_line_code l = l.seq ∷ l.author ∷ put l.epoch_id (put l.sig (body_code l.body))

abbrev key_tail_read : (seq author : ℕ) (epoch_id : List ℕ) → List ℕ → Option KeyLine
key_tail_read q a e [] = none
key_tail_read q a e (m ∷ ds) =
    some
      (record { seq = q; author = a; epoch_id = e; body = body_read (drop m ds); sig = take m ds })

abbrev key_line_read : List ℕ → Option KeyLine
key_line_read (q ∷ a ∷ n ∷ cs) = key_tail_read q a (take n cs) (drop n cs)
key_line_read _ = none

key_line_read-code : (l : KeyLine) → key_line_read (key_line_code l) ≡ some l
key_line_read-code l =
    rw (take-append (length l.epoch_id) l.epoch_id (put l.sig (body_code l.body)) refl) (
      rw (drop-append (length l.epoch_id) l.epoch_id (put l.sig (body_code l.body)) refl) (
        rw (take-append (length l.sig) l.sig (body_code l.body) refl) (
          rw (drop-append (length l.sig) l.sig (body_code l.body) refl)
            (rw (body_read-code l.body) refl))))

abbrev pub key_format : LineFormat KeyLine
key_format = format key_line_code key_line_read

pub key_format-LineFormatLaws : LineFormatLaws key_format
key_format-LineFormatLaws = format-LineFormatLaws key_line_code key_line_read key_line_read-code
