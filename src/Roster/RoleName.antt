-- ===== src/Roster/RoleName.antt =====
-- Roles as texts: `FromStr` and `Display` of Role in crates/roam-storage/src/roster.rs.
use roam.Prelude.{
  ℕ, Option, none, some, List, map, if◌then◌else◌, ◌≡◌, ◌↔◌, refl, arith, ◌∙◌, ap, Bool-cases, inl,
  inr,
}
use roam.Prelude.Bytes.{codes}
use roam.Prelude.Trim.{trim, same_text, same_text→eq, ascii_lower}
use roam.Roster.Entry.{Role, reader, writer, admin}

abbrev pub lowercase_name : List ℕ → List ℕ
lowercase_name s = map ascii_lower (trim s)

-- `Role::from_str`, without the message of its error.
unfoldable pub from_str : List ℕ → Option Role
from_str s =
    if same_text (lowercase_name s) (codes "reader")
    then some reader
    else if same_text (lowercase_name s) (codes "writer")
    then some writer
    else if same_text (lowercase_name s) (codes "admin")
    then some admin
    else none

-- `Display for Role`
abbrev pub show : Role → List ℕ
show reader = codes "reader"
show writer = codes "writer"
show admin = codes "admin"

from_str→show : (s : List ℕ) (r : Role) → from_str s ≡ some r → lowercase_name s ≡ show r
unfolding from_str
from_str→show s r h = elim (Bool-cases (same_text (lowercase_name s) (codes "reader"))) [
  | inl e ↦ let same : reader ≡ r = ground (arith, e, h) in same_text→eq _ _ e ∙ ap show same
  | inr e ↦ elim (Bool-cases (same_text (lowercase_name s) (codes "writer"))) [
    | inl f ↦ let same : writer ≡ r = ground (arith, e, f, h) in same_text→eq _ _ f ∙ ap show same
    | inr f ↦ elim (Bool-cases (same_text (lowercase_name s) (codes "admin"))) [
      | inl g ↦
          let same : admin ≡ r = ground (arith, e, f, g, h) in same_text→eq _ _ g ∙ ap show same
      | inr g ↦ absurd (ground (arith, e, f, g, h))
    ]
  ]
]

show→from_str : (s : List ℕ) (r : Role) → lowercase_name s ≡ show r → from_str s ≡ some r
unfolding from_str
show→from_str s reader h = rw h refl
show→from_str s writer h = rw h refl
show→from_str s admin h = rw h refl

-- A text is read as a role exactly when, trimmed and in lower case, it is the role's own name.
pub from_str-show : (s : List ℕ) (r : Role) → (from_str s ≡ some r) ↔ (lowercase_name s ≡ show r)
from_str-show s r = (from_str→show s r, show→from_str s r)
