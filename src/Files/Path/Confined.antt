-- ===== src/Files/Path/Confined.antt =====
-- A container id belongs to a file under the vault's root.
use roam.Prelude.{
  ℕ, Bool, true, false, not, ◌&&◌, ◌||◌, Option, none, some, List, [], ◌∷◌, ◌++◌, if◌then◌else◌,
  ◌≡◌,
}
use roam.Files.Path.{
  Component, normal, parent_dir, cur_dir, FilePath, init, strip, remainder, join_path,
}

abbrev is_some : {A : Type 0} → Option A → Bool
is_some none = false
is_some (some a) = true

-- Where a walk in a tree of directories ends: a name leads down, ".." leads up, from the top to the
-- top itself. A place is the list of the names that lead to it from the top.
abbrev pub walk : (place : List (List ℕ)) → List Component → List (List ℕ)
walk place [] = place
walk place (normal part ∷ cs) = walk (place ++ part ∷ []) cs
walk place (parent_dir ∷ cs) = walk (init place) cs
walk place (cur_dir ∷ cs) = walk place cs

-- The place of a path in a process that works in the directory `here`.
abbrev pub place_of : (here : List (List ℕ)) → FilePath → List (List ℕ)
place_of here path = walk (if path.is_absolute then [] else here) path.components

-- A file is meant as it stands if it is absolute, or has the components of a relative root in front,
-- else as a path within the root.
abbrev pub stands_alone : (vault_root file : FilePath) → Bool
stands_alone vault_root file =
    file.is_absolute
    || (not vault_root.is_absolute && is_some (strip vault_root.components file.components))

abbrev pub meant_place : (here : List (List ℕ)) (vault_root file : FilePath) → List (List ℕ)
meant_place here vault_root file =
    if stands_alone vault_root file
    then place_of here file
    else walk (place_of here vault_root) file.components

abbrev path_of : Bool → List Component → FilePath
path_of absolute components = record { is_absolute = absolute; components = components }

abbrev IsJoined : (here : List (List ℕ)) (vault_root file : FilePath) → Type 0
IsJoined here vault_root file =
    ((join_path vault_root (remainder vault_root file)).is_absolute ≡ vault_root.is_absolute)
    × (place_of here (join_path vault_root (remainder vault_root file))
        ≡ meant_place here vault_root file)
