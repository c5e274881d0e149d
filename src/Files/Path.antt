-- ===== src/Files/Path.antt =====
-- Container ids of vault files: crates/roam-files/src/path.rs, on a system whose paths are
-- separated by slashes.
pub mod Confined
mod Tests
use roam.Prelude.{
  ℕ, Bool, true, false, not, ◌&&◌, ◌||◌, Option, none, some, List, [], ◌∷◌, ◌++◌, length, any, take,
  drop, ◌==◌, ltb, if◌then◌else◌,
}
use roam.Prelude.Bytes.{codes}
use roam.Prelude.Outcomes.{Outcome, ok, err}
use roam.Prelude.Words.{split, join}
use roam.Prelude.Trim.{same_text}

-- `std::path::Component`, the root apart.
pub data Component : Type 0 where
  normal : (part : List ℕ) → Component
  parent_dir cur_dir : Component

-- A path: whether it begins at the root, and its other components.
pub record FilePath : Type 0 where
  pub is_absolute : Bool
  pub components : List Component

abbrev pub is_dot_dot : List ℕ → Bool
is_dot_dot part = same_text part (codes "..")

abbrev pub init : List (List ℕ) → List (List ℕ)
init [] = []
init (part ∷ []) = []
init (part ∷ next ∷ parts) = part ∷ init (next ∷ parts)

abbrev pub last : List (List ℕ) → Option (List ℕ)
last [] = none
last (part ∷ []) = some part
last (part ∷ next ∷ parts) = last (next ∷ parts)

-- One component of `lexical_normalize`.
unfoldable pub step : (absolute : Bool) → Component → List (List ℕ) → List (List ℕ)
step absolute (normal part) parts = parts ++ part ∷ []
step absolute parent_dir parts =
    let up = if absolute then parts else parts ++ codes ".." ∷ [] in
    elim (last parts) [ none ↦ up | some l ↦ if not (is_dot_dot l) then init parts else up ]
step absolute cur_dir parts = parts

unfoldable pub normalize_from : (absolute : Bool) → List (List ℕ) → List Component → List (List ℕ)
normalize_from absolute parts [] = parts
normalize_from absolute parts (c ∷ cs) = normalize_from absolute (step absolute c parts) cs

-- `lexical_normalize`
unfoldable pub lexical_normalize : FilePath → List (List ℕ)
lexical_normalize path = normalize_from path.is_absolute [] path.components

abbrev same_component : Component → Component → Bool
same_component (normal p) (normal q) = same_text p q
same_component parent_dir parent_dir = true
same_component cur_dir cur_dir = true
same_component _ _ = false

abbrev same_bool : Bool → Bool → Bool
same_bool true b = b
same_bool false b = not b

-- The components behind a prefix.
unfoldable pub strip : List Component → List Component → Option (List Component)
strip [] file = some file
strip (r ∷ root) [] = none
strip (r ∷ root) (f ∷ file) =
    let rest = strip root file in if same_component r f then rest else none

-- `file.strip_prefix(vault_root).unwrap_or(file)`
unfoldable pub remainder : (vault_root file : FilePath) → FilePath
remainder vault_root file =
    if same_bool vault_root.is_absolute file.is_absolute
    then elim (strip vault_root.components file.components) [
      | none ↦ file
      | some rest ↦ record { is_absolute = false; components = rest }
    ]
    else file

-- `Path::join`
unfoldable pub join_path : FilePath → FilePath → FilePath
join_path base path =
    if path.is_absolute
    then path
    else record { is_absolute = base.is_absolute; components = base.components ++ path.components }

abbrev pub same_parts : List (List ℕ) → List (List ℕ) → Bool
same_parts [] [] = true
same_parts (p ∷ ps) (q ∷ qs) = same_text p q && same_parts ps qs
same_parts _ _ = false

pub data FilesError : Type 0 where
  path_escapes_vault : FilePath → FilesError
  reserved_name : (key : List ℕ) → FilesError

-- `FILESET_MAP_ID`
abbrev pub fileset_map_id : List ℕ
fileset_map_id = codes "__roam_fileset__"

abbrev pub file_parts : (vault_root file : FilePath) → List (List ℕ)
file_parts vault_root file = lexical_normalize (join_path vault_root (remainder vault_root file))

-- `container_id`; Unicode normalization is a parameter.
unfoldable pub container_id :
    (nfc : List ℕ → List ℕ) (vault_root file : FilePath) → Outcome FilesError (List ℕ)
container_id nfc vault_root file =
    let root_parts = lexical_normalize vault_root in
    let parts = file_parts vault_root file in
    if any is_dot_dot parts
    then err (path_escapes_vault file)
    else if ltb (length parts) (length root_parts)
        || not (same_parts (take (length root_parts) parts) root_parts)
    then err (path_escapes_vault file)
    else let key = nfc (join b'/' (drop (length root_parts) parts)) in
      if same_text key fileset_map_id then err (reserved_name key) else ok key
