-- ===== src/Log.antt =====
-- The signed append-only logs of crates/roam-storage (oplog.rs, roster.rs, keylog.rs): what their
-- reading and writing share. The three `verify_text` have the same loop, over different lines.
pub mod Reading
pub mod Sound
pub mod Format
pub mod OpLog
pub mod RosterLog
pub mod KeyLogFile
mod Samples
mod Tests
use roam.Prelude.{
  ℕ, ◌+◌, ◌-◌, Bool, true, false, not, ◌&&◌, Option, none, some, List, [], ◌∷◌, ◌++◌, length,
  select, ◌==◌, if◌then◌else◌, ◌≡◌, ◌⊎◌, inl, inr, refl, arith,
}
use roam.Prelude.Outcomes.{Outcome}
pub use roam.Prelude.Outcomes.{ok, err, ◌>>=◌, ok_or, >>=-eq_ok, Outcome-cases}
use roam.Prelude.Text.{is_blank, ends_with_newline, lines}

-- `StorageError`, without the texts of its messages.
pub data StorageError : Type 0 where
  io json base64 malformed_identity malformed_entry : StorageError
  bad_signature : (peer_id : ℕ) → StorageError
  peer blob crdt keywrap invalid : StorageError

abbrev pub Result : Type 0 → Type 0
Result A = Outcome StorageError A

-- Inversion of a step that fails on a missing value.
pub ok_or-eq_ok :
    {A B : Type 0} (o : Option A) (e : StorageError) (f : A → Result B) {b : B}
    → (ok_or o e >>= f) ≡ ok b
    → (a : A) × (o ≡ some a) × (f a ≡ ok b)
ok_or-eq_ok none e f h = absurd (ground arith)
ok_or-eq_ok (some a) e f h = (a, refl, h)

-- Inversion of a guard.
pub guard-eq_ok :
    {B : Type 0} (t : Bool) (e : StorageError) (r : Result B) {b : B}
    → (if t then err e else r) ≡ ok b
    → (t ≡ false) × (r ≡ ok b)
guard-eq_ok true e r h = absurd (ground arith)
guard-eq_ok false e r h = (refl, h)

abbrev pub is_empty : List ℕ → Bool
is_empty [] = true
is_empty (c ∷ cs) = false

-- The loop of `verify_text`: a line that does not parse is tolerated only as a torn last one.
unfoldable pub verify_from :
    {Line Entry : Type 0}
    → (List ℕ → Option Line)
    → (Line → Result Entry)
    → Bool
    → ℕ
    → ℕ
    → List Entry
    → List (List ℕ)
    → Result (List Entry)
verify_from parse accept torn_tail last i out [] = ok out
verify_from parse accept torn_tail last i out (line ∷ rest) = elim (parse line) [
  | none ↦ if i == last && torn_tail then ok out else err malformed_entry
  | some parsed ↦ elim (accept parsed) [
    | err e ↦ err e
    | ok entry ↦ verify_from parse accept torn_tail last (i + 1) (out ++ entry ∷ []) rest
  ]
]

abbrev pub torn : List ℕ → Bool
torn text = not (is_empty text) && not (ends_with_newline text)

abbrev pub content_lines : List ℕ → List (List ℕ)
content_lines text = select (λ l. not (is_blank l)) (lines text)

unfoldable pub verify_text :
    {Line Entry : Type 0}
    → (List ℕ → Option Line)
    → (Line → Result Entry)
    → List ℕ
    → Result (List Entry)
verify_text parse accept text =
    verify_from parse accept (torn text) (length (content_lines text) - 1) 0 [] (content_lines text)

-- What the crates that are not part of the repository provide: base64 and ed25519.
pub record Crypto : Type 0 where
  pub encode : List ℕ → List ℕ
  pub decode : List ℕ → Option (List ℕ)
  pub public_key : (secret : List ℕ) → List ℕ
  pub sign : (secret message : List ℕ) → List ℕ
  pub verify : (key message signature : List ℕ) → Bool

-- Their documented behaviour, as far as the logs rely on it.
pub record CryptoLaws (c : Crypto) : Type 0 where
  pub decode-encode : (bytes : List ℕ) → c.decode (c.encode bytes) ≡ some bytes
  pub length-sign : (secret message : List ℕ) → length (c.sign secret message) ≡ 64
  pub verify-sign :
      (secret message : List ℕ)
      → c.verify (c.public_key secret) message (c.sign secret message) ≡ true
