-- ===== src/Roster/Entry.antt =====
-- The data of the signed roster: roles, membership changes, entries and the merged peer records.
use roam.Prelude.{
  ℕ, Bool, true, false, Option, none, some, List, take, ◌==◌, if◌then◌else◌, ◌≡◌, refl, leb, arith,
}
use roam.Prelude.Bytes.{from_le_bytes}

-- Ascending by privilege.
pub data Role : Type 0 where
  reader writer admin : Role

-- `role_byte`
abbrev pub role_byte : Role → ℕ
role_byte reader = 0
role_byte writer = 1
role_byte admin = 2

-- `Ord::min` of the derived order, which is that of the discriminants.
abbrev pub role_min : Role → Role → Role
role_min a b = if leb (role_byte a) (role_byte b) then a else b

-- A text is its UTF-8 bytes.
pub data RosterOp : Type 0 where
  add set_role : (role : Role) → RosterOp
  revoke : RosterOp
  set_name : (name : List ℕ) → RosterOp

pub record RosterEntry : Type 0 where
  pub seq : ℕ
  pub lamport : ℕ
  pub op : RosterOp
  pub subject_peer : ℕ
  pub subject_key : List ℕ
  pub added_by : ℕ

pub data PeerStatus : Type 0 where
  active revoked : PeerStatus

pub record PeerRecord : Type 0 where
  pub peer_id : ℕ
  pub verifying_key : List ℕ
  pub status : PeerStatus
  pub role : Role
  pub name : Option (List ℕ)

unfoldable pub derives_peer : RosterEntry → Bool
derives_peer e = e.subject_peer == from_le_bytes (take 8 e.subject_key)

-- The role that an operation grants, if it is a grant.
abbrev pub granted_role : RosterOp → Option Role
granted_role (add role) = some role
granted_role (set_role role) = some role
granted_role revoke = none
granted_role (set_name name) = none

abbrev pub grants_admin : RosterOp → Bool
grants_admin (add admin) = true
grants_admin (set_role admin) = true
grants_admin _ = false

pub grants_admin→granted : (op : RosterOp) → grants_admin op ≡ true → granted_role op ≡ some admin
grants_admin→granted (add admin) h = refl
grants_admin→granted (add reader) h = absurd (ground arith)
grants_admin→granted (add writer) h = absurd (ground arith)
grants_admin→granted (set_role admin) h = refl
grants_admin→granted (set_role reader) h = absurd (ground arith)
grants_admin→granted (set_role writer) h = absurd (ground arith)
grants_admin→granted revoke h = absurd (ground arith)
grants_admin→granted (set_name n) h = absurd (ground arith)
