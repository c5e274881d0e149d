-- ===== src/Prelude/Words.antt =====
-- Splitting a text at a separator and joining it again, and the UTF-8 bytes of a text.
use Prim.Native.Nat.{ℕ, ◌+◌, ◌/◌, ◌%◌}
use mathlib.Core.Path.{◌≡◌, refl, ap, sym, ◌∙◌}
use mathlib.Core.Logic.{◌≢◌, inl, inr}
use mathlib.Core.Bool.{false}
use mathlib.Core.List.{List, [], ◌∷◌, ◌++◌, append_assoc}
use native.Mathlib.Omega.{arith}
use roam.Prelude.Tests.{◌==◌, ltb, if◌then◌else◌, Bool-cases, ==→eq, ==_self}
use roam.Prelude.Lists.{All}

abbrev pub cons_head : ℕ → List (List ℕ) → List (List ℕ)
cons_head c [] = (c ∷ []) ∷ []
cons_head c (w ∷ ws) = (c ∷ w) ∷ ws

-- `str::split` at a character: one word more than separators.
abbrev pub split : ℕ → List ℕ → List (List ℕ)
split sep [] = [] ∷ []
split sep (c ∷ cs) = let rest = split sep cs in if c == sep then [] ∷ rest else cons_head c rest

-- `join` with a one-character separator.
abbrev pub join : ℕ → List (List ℕ) → List ℕ
join sep [] = []
join sep (w ∷ []) = w
join sep (w ∷ v ∷ ws) = w ++ sep ∷ join sep (v ∷ ws)

abbrev pub Lacks : ℕ → List ℕ → Type 0
Lacks sep w = All (λ c. c ≢ sep) w

split-ne-nil : (sep : ℕ) (cs : List ℕ) → split sep cs ≢ []
split-ne-nil sep [] e = cc
split-ne-nil sep (c ∷ cs) e = elim (Bool-cases (c == sep)) [
  | inl t ↦ let e' : ([] ∷ split sep cs) ≡ [] = rw t at e in cc
  | inr f ↦ let e' : cons_head c (split sep cs) ≡ [] = rw f at e in never (split sep cs) e'
]
  where
    never : (ws : List (List ℕ)) → cons_head c ws ≡ [] → ⊥
    never [] q = cc
    never (w ∷ ws) q = cc

join-cons_nil : (sep : ℕ) (ws : List (List ℕ)) → ws ≢ [] → join sep ([] ∷ ws) ≡ sep ∷ join sep ws
join-cons_nil sep [] n = absurd (n refl)
join-cons_nil sep (w ∷ ws) n = refl

join-cons_head : (sep c : ℕ) (ws : List (List ℕ)) → join sep (cons_head c ws) ≡ c ∷ join sep ws
join-cons_head sep c [] = refl
join-cons_head sep c (w ∷ []) = refl
join-cons_head sep c (w ∷ v ∷ ws) = refl

pub join-split : (sep : ℕ) (cs : List ℕ) → join sep (split sep cs) ≡ cs
join-split sep [] = refl
join-split sep (c ∷ cs) = elim (Bool-cases (c == sep)) [
  | inl t ↦ rw t (
      join-cons_nil sep (split sep cs) (split-ne-nil sep cs)
      ∙ ap (◌∷◌ sep) (join-split sep cs)
      ∙ ap (λ x. x ∷ cs) (sym (==→eq c sep t)))
  | inr f ↦ rw f (join-cons_head sep c (split sep cs) ∙ ap (◌∷◌ c) (join-split sep cs))
]

pub split-single : (sep : ℕ) (w : List ℕ) → Lacks sep w → split sep w ≡ w ∷ []
split-single sep [] h = refl
split-single sep (c ∷ w) h =
    let f : (c == sep) ≡ false = other c h.0 in rw f (ap (cons_head c) (split-single sep w h.1))
  where
    other : (d : ℕ) → d ≢ sep → (d == sep) ≡ false
    other d n = ground arith

pub split-append :
    (sep : ℕ) (w rest : List ℕ) → Lacks sep w → split sep (w ++ sep ∷ rest) ≡ w ∷ split sep rest
split-append sep [] rest h = rw (==_self sep) refl
split-append sep (c ∷ w) rest h =
    let f : (c == sep) ≡ false = other c h.0 in
    rw f (ap (cons_head c) (split-append sep w rest h.1))
  where
    other : (d : ℕ) → d ≢ sep → (d == sep) ≡ false
    other d n = ground arith

-- `char::encode_utf8`
abbrev pub utf8_char : ℕ → List ℕ
utf8_char c =
    if ltb c 0x80
    then c ∷ []
    else if ltb c 0x800
    then (0xc0 + c / 64) ∷ (0x80 + c % 64) ∷ []
    else if ltb c 0x10000
    then (0xe0 + c / 4096) ∷ (0x80 + c / 64 % 64) ∷ (0x80 + c % 64) ∷ []
    else (0xf0 + c / 262144) ∷ (0x80 + c / 4096 % 64) ∷ (0x80 + c / 64 % 64) ∷ (0x80 + c % 64) ∷ []

-- `str::as_bytes`
abbrev pub as_bytes : List ℕ → List ℕ
as_bytes [] = []
as_bytes (c ∷ cs) = utf8_char c ++ as_bytes cs

pub as_bytes-append : (xs ys : List ℕ) → as_bytes (xs ++ ys) ≡ as_bytes xs ++ as_bytes ys
as_bytes-append [] ys = refl
as_bytes-append (x ∷ xs) ys =
    ap (◌++◌ (utf8_char x)) (as_bytes-append xs ys)
    ∙ sym (append_assoc (utf8_char x) (as_bytes xs) (as_bytes ys))

utf8_char-ne-nil : (c : ℕ) → utf8_char c ≢ []
utf8_char-ne-nil c e = ground arith

pub as_bytes-ne-nil : (c : ℕ) (cs : List ℕ) → as_bytes (c ∷ cs) ≢ []
as_bytes-ne-nil c cs e = ground (arith, utf8_char-ne-nil c)
