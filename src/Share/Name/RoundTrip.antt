-- ===== src/Share/Name/RoundTrip.antt =====
-- Relative paths are parsed and printed without change, and can be put under a folder's name.
use roam.Prelude.{
  ℕ, Bool, false, ◌&&◌, ◌||◌, none, some, List, [], ◌∷◌, ◌++◌, length, get_elem?, ◌==◌, leb,
  if◌then◌else◌, ◌≡◌, ◌≢◌, refl, arith, All, ◌∙◌, ap, sym, subst,
}
use roam.Prelude.Words.{
  split, join, Lacks, as_bytes, join-split, split-append, as_bytes-append, as_bytes-ne-nil,
}
use roam.Prelude.Outcomes.{>>=-eq_ok}
use roam.Share.Name.{
  absolute, no_components, Result, ok, err, ◌>>=◌, SafeName, RelPath, new_name, collect_names,
  new_path, starts_with, has_drive, has_char, no_parts, texts, display,
}

-- A validated name: it was accepted, and is the accepted text.
abbrev pub IsName : SafeName → Type 0
IsName n = new_name n.text ≡ ok n

accepted-text : (raw : List ℕ) (n : SafeName) → new_name raw ≡ ok n → n.text ≡ raw
unfolding new_name
accepted-text raw n h = ground arith

pub IsName-of_new : (raw : List ℕ) (n : SafeName) → new_name raw ≡ ok n → (n.text ≡ raw) × IsName n
IsName-of_new raw n h =
    let same = accepted-text raw n h in (same, subst (λ t. new_name t ≡ ok n) (sym same) h)

not_char : (c : ℕ) (raw : List ℕ) → has_char c raw ≡ false → Lacks c raw
not_char c [] h = tt
not_char c (d ∷ raw) h = (ground arith, not_char c raw (ground arith))

-- What the checks leave: a nonempty text without separators.
pub IsName-Lacks :
    (n : SafeName) → IsName n → (n.text ≢ []) × Lacks b'/' n.text × (has_char b'\\' n.text ≡ false)
unfolding new_name
IsName-Lacks n h = (λ e. absurd (ground arith), not_char b'/' n.text (ground arith), ground arith)

-- The components of an accepted path.
abbrev pub AreNames : List SafeName → Type 0
AreNames ns = All IsName ns

collect-texts :
    (ws : List (List ℕ)) (ns : List SafeName)
    → collect_names ws ≡ ok ns
    → (texts ns ≡ ws) × AreNames ns
unfolding collect_names
collect-texts [] ns h =
    let e : ns ≡ [] = ground arith in subst (λ v. (texts v ≡ []) × AreNames v) (sym e) (refl, tt)
collect-texts (w ∷ ws) ns h =
    let (n, named, rest) = >>=-eq_ok (new_name w) (λ n. collect_names ws >>= λ ns. ok (n ∷ ns)) h in
    let (ms, collected, built) = >>=-eq_ok (collect_names ws) (λ ms. ok (n ∷ ms)) rest in
    let (same, valid) = IsName-of_new w n named in
    let (same_rest, valid_rest) = collect-texts ws ms collected in
    let e : ns ≡ n ∷ ms = ground arith in
    subst (λ v. (texts v ≡ w ∷ ws) × AreNames v) (sym e) (cc, (valid, valid_rest))

collect-own_texts : (ns : List SafeName) → AreNames ns → collect_names (texts ns) ≡ ok ns
unfolding collect_names
collect-own_texts [] valid = refl
collect-own_texts (n ∷ ns) (valid, rest) =
    ap (λ r. r >>= λ n. collect_names (texts ns) >>= λ ns. ok (n ∷ ns)) valid
    ∙ ap (λ r. r >>= λ ns. ok (n ∷ ns)) (collect-own_texts ns rest)

enough_parts :
    (ns : List SafeName) (p : RelPath)
    → (if no_parts ns then err no_components else ok (record { components = ns })) ≡ ok p
    → (ns ≡ p.components) × (no_parts p.components ≡ false)
enough_parts [] p h = absurd (ground arith)
enough_parts (n ∷ ns) p h =
    (ground arith, let e : p.components ≡ n ∷ ns = ground arith in ap no_parts e)

-- What an accepted path is made of.
new_path-parts :
    (raw : List ℕ) (p : RelPath)
    → new_path raw ≡ ok p
    → (collect_names (split b'/' raw) ≡ ok p.components) × (no_parts p.components ≡ false)
unfolding new_path
new_path-parts raw p h =
    let guarded : (collect_names (split b'/' raw) >>= λ ns.
    if no_parts ns then err no_components else ok (record { components = ns }))
        ≡ ok p =
      ground arith in
    let (ns, collected, built) =
      >>=-eq_ok (collect_names (split b'/' raw))
        (λ ns. if no_parts ns then err no_components else ok (record { components = ns }))
        guarded in
    let (same, filled) = enough_parts ns p built in (collected ∙ ap ok same, filled)

-- An accepted path prints as the text it was read from, and all its components are accepted names.
pub new_path-display :
    (raw : List ℕ) (p : RelPath) → new_path raw ≡ ok p → (display p ≡ raw) × AreNames p.components
unfolding display
new_path-display raw p h =
    let (collected, filled) = new_path-parts raw p h in
    let (same, valid) = collect-texts (split b'/' raw) p.components collected in
    (ap (join b'/') same ∙ join-split b'/' raw, valid)

-- The components of an accepted path are the words of its text.
pub new_path-splits :
    (raw : List ℕ) (p : RelPath)
    → new_path raw ≡ ok p
    → (split b'/' raw ≡ texts p.components) × (no_parts p.components ≡ false)
new_path-splits raw p h =
    let (collected, filled) = new_path-parts raw p h in
    let (same, valid) = collect-texts (split b'/' raw) p.components collected in (sym same, filled)

drive_in : List ℕ → Bool
drive_in bytes =
    leb 2 (length bytes) && elim (get_elem? bytes 1) [ none ↦ false | some b ↦ b == b':' ]

drive_in-append :
    (bytes rest : List ℕ) → bytes ≢ [] → drive_in (bytes ++ b'/' ∷ rest) ≡ drive_in bytes
unfolding drive_in
drive_in-append [] rest h = absurd (h refl)
drive_in-append (a ∷ []) rest h = ground arith
drive_in-append (a ∷ b ∷ bytes) rest h = ground arith

has_drive-append : (raw rest : List ℕ) → raw ≢ [] → has_drive (raw ++ b'/' ∷ rest) ≡ has_drive raw
unfolding has_drive drive_in
has_drive-append [] rest h = absurd (h refl)
has_drive-append (c ∷ raw) rest h =
    ap drive_in (as_bytes-append (c ∷ raw) (b'/' ∷ rest))
    ∙ drive_in-append (as_bytes (c ∷ raw)) (as_bytes rest) (as_bytes-ne-nil c raw)

relative-append :
    (raw rest : List ℕ)
    → raw ≢ []
    → Lacks b'/' raw
    → has_char b'\\' raw ≡ false
    → (starts_with b'/' (raw ++ rest) || starts_with b'\\' (raw ++ rest)) ≡ false
relative-append [] rest h slash backslash = absurd (h refl)
relative-append (c ∷ raw) rest h slash backslash = ground arith

-- The later steps of `new_path`.
abbrev enough : Result (List SafeName) → Result RelPath
enough r = r >>= λ ns. if no_parts ns then err no_components else ok (record { components = ns })

abbrev new_path_parts : List ℕ → Result RelPath
new_path_parts raw = enough (collect_names (split b'/' raw))

abbrev new_path_guarded : List ℕ → Result RelPath
new_path_guarded raw = if has_drive raw then err absolute else new_path_parts raw

-- Under a folder's accepted name an accepted path is accepted, as the path with the name in front,
-- unless the name looks like a drive: then it is refused as absolute.
pub new_path-under :
    (n : SafeName) (raw : List ℕ) (p : RelPath)
    → new_name n.text ≡ ok n
    → new_path raw ≡ ok p
    → new_path (n.text ++ b'/' ∷ display p)
      ≡ (if has_drive n.text then err absolute else ok (record { components = n ∷ p.components }))
unfolding new_path collect_names
new_path-under n raw p named h =
    let (filled, lacks, backslash) = IsName-Lacks n named in
    let relative = relative-append n.text (b'/' ∷ display p) filled lacks backslash in
    let drive = has_drive-append n.text (display p) filled in
    let (same, valid) = new_path-display raw p h in
    let (collected, some_part) = new_path-parts raw p h in
    let parts : split b'/' (n.text ++ b'/' ∷ display p) ≡ n.text ∷ split b'/' (display p) =
      split-append b'/' n.text (display p) lacks in
    let all : collect_names (split b'/' (n.text ++ b'/' ∷ display p)) ≡ ok (n ∷ p.components) =
      ap collect_names (parts ∙ ap (λ raw. n.text ∷ split b'/' raw) same)
      ∙ ap (λ r. r >>= λ n. collect_names (split b'/' raw) >>= λ ns. ok (n ∷ ns)) named
      ∙ ap (λ r. r >>= λ ns. ok (n ∷ ns)) collected in
    ap (λ b. if b then err absolute else new_path_guarded (n.text ++ b'/' ∷ display p)) relative
    ∙ ap (λ b. if b then err absolute else new_path_parts (n.text ++ b'/' ∷ display p)) drive
    ∙ ap (λ r. if has_drive n.text then err absolute else enough r) all
