-- ===== src/Prelude/Bytes.antt =====
-- Bytes of words and texts, and when equal byte strings have equal fields.
use Prim.Native.Nat.{ℕ, zero, suc, ◌+◌, ◌*◌, ◌/◌, ◌%◌, ◌^◌, ◌<◌}
use Prim.Native.Char.{code}
use Prim.Native.String.{String}
use mathlib.Core.Path.{◌≡◌, refl, ap, sym, ◌∙◌}
use mathlib.Core.List.{List, [], ◌∷◌, ◌++◌}
use native.Mathlib.Nat.{pow-suc}
use native.Mathlib.Omega.{arith}
use roam.Prelude.Lists.{length}

-- The code points of a text; of an ASCII text, its bytes.
abbrev pub codes : String → List ℕ
codes String.[] = []
codes (String.◌∷◌ c s) = code c ∷ codes s

-- `to_le_bytes` of a word of `w` bytes.
abbrev pub to_le_bytes : ℕ → ℕ → List ℕ
to_le_bytes zero n = []
to_le_bytes (suc w) n = n % 256 ∷ to_le_bytes w (n / 256)

-- `from_le_bytes`
abbrev pub from_le_bytes : List ℕ → ℕ
from_le_bytes [] = 0
from_le_bytes (b ∷ bs) = b + 256 * from_le_bytes bs

pub length-to_le_bytes : (w n : ℕ) → length (to_le_bytes w n) ≡ w
length-to_le_bytes zero n = refl
length-to_le_bytes (suc w) n = ap suc (length-to_le_bytes w (n / 256))

pub from_le_bytes-to_le_bytes : (w n : ℕ) → n < 256 ^ w → from_le_bytes (to_le_bytes w n) ≡ n
from_le_bytes-to_le_bytes zero n h = omega arith
from_le_bytes-to_le_bytes (suc w) n h =
    omega (arith, from_le_bytes-to_le_bytes w (n / 256) (omega (arith, pow-suc 256 w)))

pub to_le_bytes-injective :
    (w : ℕ) {n m : ℕ} → n < 256 ^ w → m < 256 ^ w → to_le_bytes w n ≡ to_le_bytes w m → n ≡ m
to_le_bytes-injective w {n} {m} h k e =
    sym (from_le_bytes-to_le_bytes w n h) ∙ ap from_le_bytes e ∙ from_le_bytes-to_le_bytes w m k

module _ {ℓ} {A : Type ℓ} where
  -- Two strings that begin with parts of one length have equal parts.
  pub append-injective :
      (xs ys : List A) {us vs : List A}
      → length xs ≡ length ys
      → xs ++ us ≡ ys ++ vs
      → (xs ≡ ys) × (us ≡ vs)
  append-injective [] [] n e = (refl, e)
  append-injective [] (y ∷ ys) n e = absurd (omega arith)
  append-injective (x ∷ xs) [] n e = absurd (omega arith)
  append-injective (x ∷ xs) (y ∷ ys) {us} {vs} n e =
      let rest : xs ++ us ≡ ys ++ vs = cc in
      let (p, q) = append-injective xs ys (omega arith) rest in (cc, q)

-- The same for a field of a word.
pub word-injective :
    (w : ℕ) {n m : ℕ} {us vs : List ℕ}
    → n < 256 ^ w
    → m < 256 ^ w
    → to_le_bytes w n ++ us ≡ to_le_bytes w m ++ vs
    → (n ≡ m) × (us ≡ vs)
word-injective w {n} {m} h k e =
    let (p, q) =
      append-injective (to_le_bytes w n) (to_le_bytes w m)
        (length-to_le_bytes w n ∙ sym (length-to_le_bytes w m)) e in
    (to_le_bytes-injective w h k p, q)
