-- ===== src/Share/Name/Confinement.antt =====
-- A path that a stranger chose stays under the directory it is resolved in.
use mathlib.Core.List.{append_assoc, append-nil}
use roam.Prelude.{ℕ, false, ◌||◌, List, [], ◌∷◌, ◌++◌, if◌then◌else◌, ◌≡◌, ◌≢◌, arith, ◌∙◌, ap, sym}
use roam.Prelude.Bytes.{codes}
use roam.Prelude.Words.{split}
use roam.Share.Name.{
  ok, SafeName, RelPath, new_name, new_path, no_parts, texts, is_empty, same_text,
}
use roam.Share.Name.RoundTrip.{IsName, AreNames, new_path-display, new_path-splits}

-- How a system resolves a path: an empty word and "." stay, ".." goes up, any other word goes down.
abbrev parent : List (List ℕ) → List (List ℕ)
parent [] = []
parent (w ∷ []) = []
parent (w ∷ v ∷ ws) = w ∷ parent (v ∷ ws)

abbrev pub next : List (List ℕ) → List ℕ → List (List ℕ)
next at w =
    if is_empty w || same_text w (codes ".")
    then at
    else if same_text w (codes "..")
    then parent at
    else at ++ w ∷ []

abbrev pub resolve : List (List ℕ) → List (List ℕ) → List (List ℕ)
resolve base [] = base
resolve base (w ∷ ws) = resolve (next base w) ws

-- No word of an accepted name stays or goes up.
IsName-descends :
    (n : SafeName)
    → IsName n
    → ((is_empty n.text || same_text n.text (codes ".")) ≡ false)
      × (same_text n.text (codes "..") ≡ false)
unfolding new_name
IsName-descends n h = (ground arith, ground arith)

next_of_name :
    (n : SafeName) (base : List (List ℕ)) → IsName n → next base n.text ≡ base ++ n.text ∷ []
next_of_name n base valid = let (stays, up) = IsName-descends n valid in ground arith

resolve-texts :
    (ns : List SafeName) (base : List (List ℕ))
    → AreNames ns
    → resolve base (texts ns) ≡ base ++ texts ns
resolve-texts [] base valid = sym (append-nil base)
resolve-texts (n ∷ ns) base (valid, rest) =
    ap (λ at. resolve at (texts ns)) (next_of_name n base valid)
    ∙ resolve-texts ns (base ++ n.text ∷ []) rest
    ∙ append_assoc base (n.text ∷ []) (texts ns)

some_words : (ns : List SafeName) → no_parts ns ≡ false → texts ns ≢ []
some_words [] h = absurd (ground arith)
some_words (n ∷ ns) h = λ e. absurd (ground arith)

-- Resolving an accepted path in a directory goes down from there by at least one word: the words
-- of the path stand behind the directory's.
pub new_path-descends :
    (raw : List ℕ) (p : RelPath) (base : List (List ℕ))
    → new_path raw ≡ ok p
    → (resolve base (split b'/' raw) ≡ base ++ split b'/' raw) × (split b'/' raw ≢ [])
new_path-descends raw p base h =
    let (shown, valid) = new_path-display raw p h in
    let (words, filled) = new_path-splits raw p h in
    (
      ap (resolve base) words
          ∙ resolve-texts p.components base valid
          ∙ ap (λ ws. base ++ ws) (sym words),
      λ e. some_words p.components filled (sym words ∙ e),
    )
