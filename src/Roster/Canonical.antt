-- ===== src/Roster/Canonical.antt =====
-- The signed bytes of a roster entry: `RosterEntry::canonical_bytes`.
use roam.Prelude.{
  ℕ, ◌%◌, ◌^◌, ◌<◌, List, [], ◌∷◌, ◌++◌, ◌≡◌, refl, ◌∙◌, ap, sym, length, arith, drop,
}
use roam.Prelude.Bytes.{codes, to_le_bytes, append-injective, word-injective}
use roam.Roster.Entry.{role_byte, RosterOp, add, set_role, revoke, set_name, RosterEntry}

abbrev pub op_tag : RosterOp → ℕ
op_tag (add role) = 0
op_tag (set_role role) = 2
op_tag revoke = 1
op_tag (set_name name) = 3

abbrev pub role_tag : RosterOp → ℕ
role_tag (add role) = role_byte role
role_tag (set_role role) = role_byte role
role_tag revoke = 0xff
role_tag (set_name name) = 0xff

-- The length-prefixed name; `name.len() as u32` keeps the low 32 bits.
abbrev pub name_suffix : RosterOp → List ℕ
name_suffix (set_name name) = to_le_bytes 4 (length name % 2 ^ 32) ++ name
name_suffix (add role) = []
name_suffix (set_role role) = []
name_suffix revoke = []

unfoldable pub canonical_bytes : RosterEntry → List ℕ
canonical_bytes e =
    codes "roam.roster.v3"
    ++ (to_le_bytes 8 e.seq
        ++ (to_le_bytes 8 e.lamport
            ++ (op_tag e.op
                ∷ role_tag e.op
                ∷ (to_le_bytes 8 e.subject_peer
                    ++ (e.subject_key ++ (to_le_bytes 8 e.added_by ++ name_suffix e.op))))))

-- The bounds of the Rust types.
pub record HasFields (e : RosterEntry) : Type 0 where
  pub seq : e.seq < 2 ^ 64
  pub lamport : e.lamport < 2 ^ 64
  pub subject_peer : e.subject_peer < 2 ^ 64
  pub added_by : e.added_by < 2 ^ 64
  pub key : length e.subject_key ≡ 32

op_injective :
    (a b : RosterOp)
    → op_tag a ≡ op_tag b
    → role_tag a ≡ role_tag b
    → name_suffix a ≡ name_suffix b
    → a ≡ b
op_injective (set_name n) (set_name m) h k e = let rest : n ≡ m = ap (drop 4) e in cc
op_injective a b h k e = ground arith

-- A signature covers one entry only: entries with the same signed bytes, whose numbers have 64
-- bits and whose keys 32 bytes, are the same entry.
pub roster_canonical_bytes-injective :
    (e d : RosterEntry) → HasFields e → HasFields d → canonical_bytes e ≡ canonical_bytes d → e ≡ d
unfolding canonical_bytes
roster_canonical_bytes-injective e d h k same =
    let (_, after_tag) =
      append-injective (codes "roam.roster.v3") (codes "roam.roster.v3") refl same in
    let (seq, after_seq) = word-injective 8 h.seq k.seq after_tag in
    let (lamport, after_lamport) = word-injective 8 h.lamport k.lamport after_seq in
    let (tags, after_tags) =
      append-injective (op_tag e.op ∷ role_tag e.op ∷ []) (op_tag d.op ∷ role_tag d.op ∷ []) refl
        after_lamport in
    let (peer, after_peer) = word-injective 8 h.subject_peer k.subject_peer after_tags in
    let (key, after_key) =
      append-injective e.subject_key d.subject_key (h.key ∙ sym k.key) after_peer in
    let (author, suffix) = word-injective 8 h.added_by k.added_by after_key in
    let op = op_injective e.op d.op (cc) (cc) suffix in cc
