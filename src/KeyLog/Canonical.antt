-- ===== src/KeyLog/Canonical.antt =====
-- The signed bytes of a key-log entry determine it, and are never those of a roster entry.
use roam.Prelude.{
  ℕ, ◌%◌, ◌^◌, ◌<◌, List, [], ◌∷◌, ◌++◌, ◌≡◌, ◌≢◌, refl, ◌∙◌, sym, length, arith, All,
}
use roam.Prelude.Bytes.{codes, to_le_bytes, append-injective, word-injective}
use mathlib.Core.List.{append_assoc}
use roam.KeyLog.{
  Recipient, device, paper, KeyBody, rotate, wrap, KeyLogEntry, concat, recipient_bytes, body_bytes,
  canonical_bytes,
}
use roam.Roster.Canonical.{canonical_bytes as roster_bytes}
use roam.Roster.Entry.{RosterEntry}

-- The bounds of the Rust types.
abbrev pub RecipientFits : Recipient → Type 0
RecipientFits (device peer) = peer < 2 ^ 64
RecipientFits paper = Unit

abbrev pub BodyFits : KeyBody → Type 0
BodyFits (rotate parents nonce) =
    All (λ (p : List ℕ). length p ≡ 32) parents × (length nonce ≡ 32) × (length parents < 2 ^ 64)
BodyFits (wrap recipient blob) = RecipientFits recipient × (length blob < 2 ^ 64)

pub record HasFields (e : KeyLogEntry) : Type 0 where
  pub seq : e.seq < 2 ^ 64
  pub author : e.author < 2 ^ 64
  pub epoch : length e.epoch_id ≡ 32
  pub body : BodyFits e.body

concat-injective :
    (ps qs : List (List ℕ)) {us vs : List ℕ}
    → length ps ≡ length qs
    → All (λ (p : List ℕ). length p ≡ 32) ps
    → All (λ (p : List ℕ). length p ≡ 32) qs
    → concat ps ++ us ≡ concat qs ++ vs
    → (ps ≡ qs) × (us ≡ vs)
concat-injective [] [] n h k e = (refl, e)
concat-injective [] (q ∷ qs) n h k e = absurd (omega arith)
concat-injective (p ∷ ps) [] n h k e = absurd (omega arith)
concat-injective (p ∷ ps) (q ∷ qs) {us} {vs} n h k e =
    let e' : p ++ (concat ps ++ us) ≡ q ++ (concat qs ++ vs) =
      sym (append_assoc p (concat ps) us) ∙ e ∙ append_assoc q (concat qs) vs in
    let (here, rest) = append-injective p q (h.0 ∙ sym k.0) e' in
    let (there, last) = concat-injective ps qs (omega arith) h.1 k.1 rest in (cc, last)

recipient-injective :
    (r s : Recipient) {us vs : List ℕ}
    → RecipientFits r
    → RecipientFits s
    → recipient_bytes r ++ us ≡ recipient_bytes s ++ vs
    → (r ≡ s) × (us ≡ vs)
recipient-injective (device p) (device q) {us} {vs} h k e =
    let rest : to_le_bytes 8 p ++ us ≡ to_le_bytes 8 q ++ vs = cc in
    let (same, after) = word-injective 8 h k rest in (cc, after)
recipient-injective (device p) paper h k e = absurd (ground arith)
recipient-injective paper (device q) h k e = absurd (ground arith)
recipient-injective paper paper h k e = (refl, cc)

body_bytes-injective :
    (a b : KeyBody) → BodyFits a → BodyFits b → body_bytes a ≡ body_bytes b → a ≡ b
body_bytes-injective (rotate ps n) (rotate qs m) h k e =
    let rest : to_le_bytes 8 (length ps % 2 ^ 64) ++ (concat ps ++ n)
        ≡ to_le_bytes 8 (length qs % 2 ^ 64) ++ (concat qs ++ m) =
      cc in
    let (count, after) = word-injective 8 (omega arith) (omega arith) rest in
    let (parents, nonce) = concat-injective ps qs (omega (arith, count, h.2, k.2)) h.0 k.0 after in
    cc
body_bytes-injective (wrap r b) (wrap s c) h k e =
    let rest : recipient_bytes r ++ (to_le_bytes 8 (length b % 2 ^ 64) ++ b)
        ≡ recipient_bytes s ++ (to_le_bytes 8 (length c % 2 ^ 64) ++ c) =
      cc in
    let (who, after) = recipient-injective r s h.0 k.0 rest in
    let (_, blob) = word-injective 8 (omega arith) (omega arith) after in cc
body_bytes-injective (rotate ps n) (wrap s c) h k e = absurd (ground arith)
body_bytes-injective (wrap r b) (rotate qs m) h k e = absurd (ground arith)

-- A key-log signature covers one entry only: entries with the same signed bytes, whose fields have
-- the sizes of their types, are the same entry; a rotation is never read as a wrap.
pub key_canonical_bytes-injective :
    (e d : KeyLogEntry) → HasFields e → HasFields d → canonical_bytes e ≡ canonical_bytes d → e ≡ d
unfolding canonical_bytes
key_canonical_bytes-injective e d h k same =
    let (_, after_tag) =
      append-injective (codes "roam.keylog.v1") (codes "roam.keylog.v1") refl same in
    let (seq, after_seq) = word-injective 8 h.seq k.seq after_tag in
    let (author, after_author) = word-injective 8 h.author k.author after_seq in
    let (epoch, body) =
      append-injective e.epoch_id d.epoch_id (h.epoch ∙ sym k.epoch) after_author in
    let last = body_bytes-injective e.body d.body h.body k.body body in cc

-- The two logs' signatures are separate: no roster entry has the signed bytes of a key-log entry.
pub roster_bytes-ne-canonical_bytes :
    (r : RosterEntry) (e : KeyLogEntry) → roster_bytes r ≢ canonical_bytes e
unfolding canonical_bytes roster_bytes
roster_bytes-ne-canonical_bytes r e same =
    let (tags, _) = append-injective (codes "roam.roster.v3") (codes "roam.keylog.v1") refl same in
    absurd (ground arith)
