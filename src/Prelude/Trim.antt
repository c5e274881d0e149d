-- ===== src/Prelude/Trim.antt =====
-- `str::trim`, ASCII case and equality on the code points of a text.
use Prim.Native.Nat.{ℕ, ◌+◌}
use mathlib.Core.Path.{◌≡◌, refl}
use mathlib.Core.Bool.{Bool, true, false, ◌&&◌}
use mathlib.Core.List.{List, [], ◌∷◌}
use native.Mathlib.Omega.{arith}
use roam.Prelude.Tests.{◌==◌, leb, if◌then◌else◌, ==_self}
use roam.Prelude.Lists.{All}
use roam.Prelude.Text.{is_whitespace}

abbrev pub trim_start : List ℕ → List ℕ
trim_start [] = []
trim_start (c ∷ cs) = let rest = trim_start cs in if is_whitespace c then rest else c ∷ cs

abbrev keep_solid : ℕ → List ℕ → List ℕ
keep_solid c [] = if is_whitespace c then [] else c ∷ []
keep_solid c (d ∷ ds) = c ∷ d ∷ ds

abbrev pub trim_end : List ℕ → List ℕ
trim_end [] = []
trim_end (c ∷ cs) = keep_solid c (trim_end cs)

abbrev pub trim : List ℕ → List ℕ
trim cs = trim_end (trim_start cs)

trim_start-solid : (cs : List ℕ) → All (λ c. is_whitespace c ≡ false) cs → trim_start cs ≡ cs
trim_start-solid [] h = refl
trim_start-solid (c ∷ cs) (h, hs) = rw h refl

keep_solid_lem : (c : ℕ) (cs : List ℕ) → is_whitespace c ≡ false → keep_solid c cs ≡ c ∷ cs
keep_solid_lem c [] h = rw h refl
keep_solid_lem c (d ∷ ds) h = refl

trim_end-solid : (cs : List ℕ) → All (λ c. is_whitespace c ≡ false) cs → trim_end cs ≡ cs
trim_end-solid [] h = refl
trim_end-solid (c ∷ cs) (h, hs) = rw (trim_end-solid cs hs) (keep_solid_lem c cs h)

-- A text without whitespace is not changed.
pub trim-solid : (cs : List ℕ) → All (λ c. is_whitespace c ≡ false) cs → trim cs ≡ cs
trim-solid cs h = rw (trim_start-solid cs h) (trim_end-solid cs h)

abbrev pub same_text : List ℕ → List ℕ → Bool
same_text [] [] = true
same_text [] (b ∷ bs) = false
same_text (a ∷ cs) [] = false
same_text (a ∷ cs) (b ∷ bs) = a == b && same_text cs bs

pub same_text→eq : (a b : List ℕ) → same_text a b ≡ true → a ≡ b
same_text→eq [] [] h = refl
same_text→eq [] (y ∷ b) h = absurd (ground (arith, h))
same_text→eq (x ∷ a) [] h = absurd (ground (arith, h))
same_text→eq (x ∷ a) (y ∷ b) h =
    let e : x ≡ y = ground (arith, h) in let es = same_text→eq a b (ground (arith, h)) in cc

pub same_text_self : (a : List ℕ) → same_text a a ≡ true
same_text_self [] = refl
same_text_self (x ∷ a) = ground (arith, ==_self x, same_text_self a)

abbrev pub ascii_lower : ℕ → ℕ
ascii_lower c = if leb b'A' c && leb c b'Z' then c + 32 else c
