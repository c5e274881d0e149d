-- ===== src/Share/Name.antt =====
-- Names and relative paths that a stranger chose: crates/roam-share/src/name.rs.
pub mod RoundTrip
pub mod Confinement
use roam.Prelude.{
  ℕ, ◌≤◌, ◌<◌, Bool, true, false, not, ◌&&◌, ◌||◌, Option, none, some, List, [], ◌∷◌, ◌++◌, map,
  length, get_elem?, any, ◌==◌, ltb, leb, if◌then◌else◌, ◌≡◌, refl,
}
use roam.Prelude.Bytes.{codes}
use roam.Prelude.Outcomes.{Outcome}
pub use roam.Prelude.Trim.{same_text, ascii_lower}
pub use roam.Prelude.Outcomes.{ok, err, ◌>>=◌}
use roam.Prelude.Words.{split, join, as_bytes}
use Prim.Native.Nat.{◌+◌}

pub data NameError : Type 0 where
  empty : NameError
  too_long : (max : ℕ) → NameError
  separator dot_segment control_character bidi_override trailing_dot_or_space : NameError
  reserved_device_name : (stem : List ℕ) → NameError
  absolute no_components : NameError

abbrev pub Result : Type 0 → Type 0
Result A = Outcome NameError A

abbrev pub max_name_bytes : ℕ
max_name_bytes = 255

abbrev pub reserved : List (List ℕ)
reserved =
    codes "CON"
    ∷ codes "PRN"
    ∷ codes "AUX"
    ∷ codes "NUL"
    ∷ codes "COM1"
    ∷ codes "COM2"
    ∷ codes "COM3"
    ∷ codes "COM4"
    ∷ codes "COM5"
    ∷ codes "COM6"
    ∷ codes "COM7"
    ∷ codes "COM8"
    ∷ codes "COM9"
    ∷ codes "LPT1"
    ∷ codes "LPT2"
    ∷ codes "LPT3"
    ∷ codes "LPT4"
    ∷ codes "LPT5"
    ∷ codes "LPT6"
    ∷ codes "LPT7"
    ∷ codes "LPT8"
    ∷ codes "LPT9"
    ∷ []

unfoldable pub is_bidi_override : ℕ → Bool
is_bidi_override c =
    (leb 0x202a c && leb c 0x202e) || (leb 0x2066 c && leb c 0x2069) || c == 0x200f || c == 0x200e

-- `char::is_control`: the general category Cc.
abbrev pub is_control : ℕ → Bool
is_control c = leb c 0x1f || (leb 0x7f c && leb c 0x9f)

abbrev pub is_empty : List ℕ → Bool
is_empty [] = true
is_empty (c ∷ cs) = false

-- `str::contains` and `str::ends_with` of a character, and equality of texts.
abbrev pub has_char : ℕ → List ℕ → Bool
has_char c raw = any (λ d. d == c) raw

abbrev pub ends_with : ℕ → List ℕ → Bool
ends_with c [] = false
ends_with c (d ∷ []) = d == c
ends_with c (d ∷ e ∷ cs) = ends_with c (e ∷ cs)

-- `eq_ignore_ascii_case`
abbrev pub same_ignoring_case : List ℕ → List ℕ → Bool
same_ignoring_case a b = same_text (map ascii_lower a) (map ascii_lower b)

-- `raw.split('.').next()`: what stands before the first dot.
abbrev pub stem_of : List ℕ → List ℕ
stem_of [] = []
stem_of (c ∷ cs) = let rest = stem_of cs in if c == b'.' then [] else c ∷ rest

pub record SafeName : Type 0 where
  pub text : List ℕ

-- `SafeName::new`
unfoldable pub new_name : List ℕ → Result SafeName
new_name raw =
    if is_empty raw
    then err empty
    else if ltb max_name_bytes (length (as_bytes raw))
    then err (too_long max_name_bytes)
    else if has_char b'/' raw || has_char b'\\' raw
    then err separator
    else if same_text raw (codes ".") || same_text raw (codes "..")
    then err dot_segment
    else if any is_control raw
    then err control_character
    else if any is_bidi_override raw
    then err bidi_override
    else if ends_with b'.' raw || ends_with b' ' raw
    then err trailing_dot_or_space
    else if any (λ r. same_ignoring_case (stem_of raw) r) reserved
    then err (reserved_device_name (stem_of raw))
    else ok (record { text = raw })

pub record RelPath : Type 0 where
  pub components : List SafeName

-- `.map(SafeName::new).collect::<Result<_, _>>()`
unfoldable pub collect_names : List (List ℕ) → Result (List SafeName)
collect_names [] = ok []
collect_names (w ∷ ws) = do n ← new_name w; ns ← collect_names ws; ok (n ∷ ns)

abbrev pub starts_with : ℕ → List ℕ → Bool
starts_with c [] = false
starts_with c (d ∷ cs) = d == c

-- `raw.len() >= 2 && raw.as_bytes()[1] == b':'`
unfoldable pub has_drive : List ℕ → Bool
has_drive raw =
    leb 2 (length (as_bytes raw))
    && elim (get_elem? (as_bytes raw) 1) [ none ↦ false | some b ↦ b == b':' ]

abbrev pub no_parts : List SafeName → Bool
no_parts [] = true
no_parts (n ∷ ns) = false

-- `RelPath::new`
unfoldable pub new_path : List ℕ → Result RelPath
new_path raw =
    if starts_with b'/' raw || starts_with b'\\' raw
    then err absolute
    else if has_drive raw
    then err absolute
    else do
      parts ← collect_names (split b'/' raw)
      if no_parts parts then err no_components else ok (record { components = parts })

abbrev pub texts : List SafeName → List (List ℕ)
texts [] = []
texts (n ∷ ns) = n.text ∷ texts ns

-- `Display for RelPath`
unfoldable pub display : RelPath → List ℕ
display p = join b'/' (texts p.components)
