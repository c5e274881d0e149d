-- ===== src/Prelude/Text.antt =====
-- Texts as lists of code points: UTF-8, lines and white space as the Rust standard library has them.
use Prim.Native.Nat.{ℕ}
use mathlib.Core.Path.{◌≡◌, refl, ap}
use mathlib.Core.Logic.{◌≢◌, inl, inr}
use mathlib.Core.Bool.{Bool, true, false, ◌&&◌, ◌||◌}
use mathlib.Core.List.{List, [], ◌∷◌, ◌++◌, append-nil, append_assoc}
use native.Mathlib.Omega.{arith}
use roam.Prelude.Tests.{◌==◌, leb, if◌then◌else◌, Bool-cases}
use roam.Prelude.Lists.{All}

-- `char::is_whitespace`: the code points with the property White_Space.
abbrev pub is_whitespace : ℕ → Bool
is_whitespace c =
    (leb 9 c && leb c 13)
    || c == 0x20
    || c == 0x85
    || c == 0xa0
    || c == 0x1680
    || (leb 0x2000 c && leb c 0x200a)
    || c == 0x2028
    || c == 0x2029
    || c == 0x202f
    || c == 0x205f
    || c == 0x3000

-- `line.trim().is_empty()`
abbrev pub is_blank : List ℕ → Bool
is_blank [] = true
is_blank (c ∷ cs) = is_whitespace c && is_blank cs

abbrev pub ends_with_newline : List ℕ → Bool
ends_with_newline [] = false
ends_with_newline (c ∷ []) = c == 10
ends_with_newline (c ∷ d ∷ cs) = ends_with_newline (d ∷ cs)

-- A carriage return before the line feed belongs to the line ending.
abbrev pub strip_cr : List ℕ → List ℕ
strip_cr [] = []
strip_cr (c ∷ []) = if c == 13 then [] else c ∷ []
strip_cr (c ∷ d ∷ cs) = c ∷ strip_cr (d ∷ cs)

-- `str::lines`, with the characters of the current line so far.
unfoldable pub lines_from : List ℕ → List ℕ → List (List ℕ)
lines_from [] [] = []
lines_from (k ∷ cur) [] = (k ∷ cur) ∷ []
lines_from cur (c ∷ cs) =
    let closed = lines_from [] cs in
    let longer = lines_from (cur ++ c ∷ []) cs in if c == 10 then strip_cr cur ∷ closed else longer

unfoldable pub lines : List ℕ → List (List ℕ)
lines text = lines_from [] text

-- Complete lines: empty, or closed by a line feed.
abbrev pub IsComplete : List ℕ → Type 0
IsComplete [] = Unit
IsComplete (c ∷ cs) = ends_with_newline (c ∷ cs) ≡ true

abbrev pub HasNoNewline : List ℕ → Type 0
HasNoNewline cs = All (λ c. c ≢ 10) cs

-- The lines of a text that goes on after complete lines are those lines and then the rest's.
lines_from-append :
    (cur text more : List ℕ)
    → ends_with_newline text ≡ true
    → lines_from cur (text ++ more) ≡ lines_from cur text ++ lines_from [] more
unfolding lines_from
lines_from-append cur [] more h = absurd (ground arith)
lines_from-append cur (c ∷ []) more h = rw h refl
lines_from-append cur (c ∷ d ∷ text) more h = elim (Bool-cases (c == 10)) [
  | inl t ↦ rw t (ap (◌∷◌ (strip_cr cur)) (lines_from-append [] (d ∷ text) more h))
  | inr f ↦ rw f (lines_from-append (cur ++ c ∷ []) (d ∷ text) more h)
]

pub lines-append :
    (text more : List ℕ) → IsComplete text → lines (text ++ more) ≡ lines text ++ lines more
unfolding lines lines_from
lines-append [] more h = refl
lines-append (c ∷ text) more h = lines_from-append [] (c ∷ text) more h

not_newline : (c : ℕ) → c ≢ 10 → (c == 10) ≡ false
not_newline c h = ground arith

lines_from_one :
    (cur line more : List ℕ)
    → HasNoNewline line
    → lines_from cur (line ++ 10 ∷ more) ≡ strip_cr (cur ++ line) ∷ lines_from [] more
unfolding lines_from
lines_from_one cur [] more h = rw append-nil refl
lines_from_one cur (c ∷ line) more h =
    let f : (c == 10) ≡ false = not_newline c h.0 in
    rw f (rw append_assoc at (lines_from_one (cur ++ c ∷ []) line more h.1))

-- A closed line in front.
pub lines_one :
    (line more : List ℕ)
    → HasNoNewline line
    → lines (line ++ 10 ∷ more) ≡ strip_cr line ∷ lines more
unfolding lines
lines_one line more h = lines_from_one [] line more h

lines_from_torn :
    (cur tail : List ℕ)
    → HasNoNewline tail
    → cur ++ tail ≢ []
    → lines_from cur tail ≡ (cur ++ tail) ∷ []
unfolding lines_from
lines_from_torn [] [] h n = absurd (n refl)
lines_from_torn (k ∷ cur) [] h n = rw append-nil refl
lines_from_torn cur (c ∷ tail) h n =
    let f : (c == 10) ≡ false = not_newline c h.0 in
    let ih : cur ++ c ∷ tail ≢ [] → lines_from (cur ++ c ∷ []) tail ≡ (cur ++ c ∷ tail) ∷ [] =
      rw append_assoc at (lines_from_torn (cur ++ c ∷ []) tail h.1) in
    rw f (ih n)

-- A torn last line.
pub lines_torn : (tail : List ℕ) → HasNoNewline tail → tail ≢ [] → lines tail ≡ tail ∷ []
unfolding lines
lines_torn tail h n = lines_from_torn [] tail h n

pub lines-nil : lines [] ≡ []
unfolding lines lines_from
lines-nil = refl

pub ends_with_newline-append :
    (xs : List ℕ) (c : ℕ) (more : List ℕ)
    → ends_with_newline (xs ++ c ∷ more) ≡ ends_with_newline (c ∷ more)
ends_with_newline-append [] c more = refl
ends_with_newline-append (x ∷ []) c more = refl
ends_with_newline-append (x ∷ y ∷ xs) c more = ends_with_newline-append (y ∷ xs) c more

pub ends_of_single :
    (c : ℕ) (cs : List ℕ) → HasNoNewline (c ∷ cs) → ends_with_newline (c ∷ cs) ≡ false
ends_of_single c [] h = not_newline c h.0
ends_of_single c (d ∷ cs) h = ends_of_single d cs h.1
