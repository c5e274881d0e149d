-- ===== src/Pake.antt =====
-- The pairing code: crates/roam-pake/src/code.rs.
mod Tests
use roam.Prelude.{
  ℕ, ◌≤◌, ◌<◌, Bool, true, false, not, ◌&&◌, Option, none, some, List, [], ◌∷◌, length, any, ◌==◌,
  leb, ltb, if◌then◌else◌, ◌≡◌, refl, arith, ◌∙◌, ap, sym, ◌+◌, ◌*◌, ◌/◌, ◌%◌, All, subst,
}
use roam.Prelude.Outcomes.{Outcome, ok, err}
use roam.Prelude.Text.{is_whitespace}
use roam.Prelude.Trim.{trim, trim-solid}

pub data CodeError : Type 0 where
  wrong_length not_all_digits : CodeError

pub record PairingCode : Type 0 where
  pub text : List ℕ

abbrev pub code_digits : ℕ
code_digits = 6

abbrev pub code_space : ℕ
code_space = 1000000

abbrev pub is_ascii_digit : ℕ → Bool
is_ascii_digit c = leb b'0' c && leb c b'9'

-- `PairingCode::parse`
unfoldable pub parse : List ℕ → Outcome CodeError PairingCode
parse raw =
    if not (length (trim raw) == code_digits)
    then err wrong_length
    else if any (λ c. not (is_ascii_digit c)) (trim raw)
    then err not_all_digits
    else ok (record { text = trim raw })

abbrev digit : ℕ → ℕ
digit n = 48 + n % 10

-- `format!("{:0width$}", n, width = CODE_DIGITS)` of a number below 10^6.
unfoldable pub format_code : ℕ → List ℕ
format_code n =
    digit (n / 100000)
    ∷ digit (n / 10000)
    ∷ digit (n / 1000)
    ∷ digit (n / 100)
    ∷ digit (n / 10)
    ∷ digit n
    ∷ []

-- `(u32::MAX / CODE_SPACE) * CODE_SPACE`
abbrev pub limit : ℕ
limit = 4294967295 / code_space * code_space

-- `PairingCode::generate`, from the numbers that the generator draws; nothing while all were refused.
unfoldable pub generate : (draws : List ℕ) → Option PairingCode
generate [] = none
generate (candidate ∷ draws) =
    let rest = generate draws in
    if ltb candidate limit
    then some (record { text = format_code (candidate % code_space) })
    else rest

digit-solid : (d : ℕ) → 48 ≤ d → d ≤ 57 → (is_whitespace d ≡ false) × (is_ascii_digit d ≡ true)
digit-solid d low high = (ground (arith, low, high), ground (arith, low, high))

abbrev pub AreDigits : List ℕ → Type 0
AreDigits ds = All (λ d. (48 ≤ d) × (d ≤ 57)) ds

solid_digits : (ds : List ℕ) → AreDigits ds → All (λ c. is_whitespace c ≡ false) ds
solid_digits [] h = tt
solid_digits (d ∷ ds) ((low, high), hs) = ((digit-solid d low high).0, solid_digits ds hs)

no_other : (ds : List ℕ) → AreDigits ds → any (λ c. not (is_ascii_digit c)) ds ≡ false
no_other [] h = refl
no_other (d ∷ ds) ((low, high), hs) = rw (digit-solid d low high).1 (no_other ds hs)

parse_digits :
    (ds : List ℕ) → length ds ≡ code_digits → AreDigits ds → parse ds ≡ ok (record { text = ds })
unfolding parse
parse_digits ds sized h =
    rw (trim-solid ds (solid_digits ds h)) (rw sized (rw (no_other ds h) refl))

AreDigits-of_any : (ds : List ℕ) → any (λ c. not (is_ascii_digit c)) ds ≡ false → AreDigits ds
AreDigits-of_any [] h = tt
AreDigits-of_any (d ∷ ds) h =
    ((ground (arith, h), ground (arith, h)), AreDigits-of_any ds (ground (arith, h)))

-- A text that is accepted is so as its trimmed text, which is six ASCII digits and is accepted as
-- itself.
pub parse-AreDigits :
    (raw : List ℕ) (code : PairingCode)
    → parse raw ≡ ok code
    → (code.text ≡ trim raw)
      × (length code.text ≡ code_digits)
      × AreDigits code.text
      × (parse code.text ≡ ok code)
unfolding parse
parse-AreDigits raw code h =
    let sized : length (trim raw) ≡ code_digits = ground (arith, h) in
    let digits : any (λ c. not (is_ascii_digit c)) (trim raw) ≡ false = ground (arith, h) in
    let same : record { text = trim raw } ≡ code = ground (arith, h) in
    subst
      (λ c.
        (c.text ≡ trim raw)
        × (length c.text ≡ code_digits)
        × AreDigits c.text
        × (parse c.text ≡ ok c))
      same
      (
        refl,
        sized,
        AreDigits-of_any (trim raw) digits,
        parse_digits (trim raw) sized (AreDigits-of_any (trim raw) digits),
      )
