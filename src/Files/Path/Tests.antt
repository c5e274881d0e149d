-- ===== src/Files/Path/Tests.antt =====
-- The theorem on container ids at a path with dots.
use roam.Prelude.{true, false, [], ◌∷◌, ◌≡◌, refl}
use roam.Prelude.Bytes.{codes}
use roam.Prelude.Outcomes.{ok}
use roam.Files.Path.{
  FilePath, normal, parent_dir, cur_dir, step, normalize_from, lexical_normalize, strip, remainder,
  join_path, container_id,
}

abbrev vault : FilePath
vault = record { is_absolute = true; components = normal (codes "home") ∷ normal (codes "v") ∷ [] }

abbrev note : FilePath
note = record {
  is_absolute = false;
  components = normal (codes "a") ∷ parent_dir ∷ cur_dir ∷ normal (codes "b.md") ∷ [];
}

-- With a relative root the condition is needed: a file anywhere is accepted by its absolute path.
abbrev dot : FilePath
dot = record { is_absolute = false; components = cur_dir ∷ [] }

abbrev passwd : FilePath
passwd = record {
  is_absolute = true;
  components = normal (codes "etc") ∷ normal (codes "passwd") ∷ [];
}

passwd-accepted : container_id (λ s. s) dot passwd ≡ ok (codes "etc/passwd")
unfolding container_id step normalize_from lexical_normalize strip remainder join_path
passwd-accepted = refl
