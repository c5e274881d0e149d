-- ===== src/Prelude/Splices.antt =====
-- Byte buffers that a slice is copied into, and the bytes at their positions.
use Prim.Native.Nat.{ℕ, zero, suc, ◌+◌, ◌-◌, ◌≤◌, ◌<◌}
use mathlib.Core.Path.{◌≡◌, refl, ap, ◌∙◌}
use mathlib.Core.Bool.{Bool, ◌&&◌}
use mathlib.Core.Option.{none, some}
use mathlib.Core.List.{List, [], ◌∷◌}
use native.Mathlib.Omega.{arith}
use roam.Prelude.Tests.{ltb, leb, if◌then◌else◌}
use roam.Prelude.Lists.{length, get_elem?, replicate, take, drop}

-- `buffer[offset..end].copy_from_slice(&bytes)`
abbrev pub overwrite : (bytes buffer : List ℕ) → List ℕ
overwrite [] buffer = buffer
overwrite (b ∷ bytes) [] = []
overwrite (b ∷ bytes) (x ∷ buffer) = b ∷ overwrite bytes buffer

abbrev pub splice : (offset : ℕ) (bytes buffer : List ℕ) → List ℕ
splice zero bytes buffer = overwrite bytes buffer
splice (suc n) bytes [] = []
splice (suc n) bytes (x ∷ buffer) = x ∷ splice n bytes buffer

length-overwrite :
    (bytes buffer : List ℕ)
    → length bytes ≤ length buffer
    → length (overwrite bytes buffer) ≡ length buffer
length-overwrite [] buffer h = refl
length-overwrite (b ∷ bytes) [] h = absurd (omega (arith, h))
length-overwrite (b ∷ bytes) (x ∷ buffer) h =
    ap suc (length-overwrite bytes buffer (omega (arith, h)))

pub length-splice :
    (offset : ℕ) (bytes buffer : List ℕ)
    → offset + length bytes ≤ length buffer
    → length (splice offset bytes buffer) ≡ length buffer
length-splice zero bytes buffer h = length-overwrite bytes buffer (omega (arith, h))
length-splice (suc n) bytes [] h = refl
length-splice (suc n) bytes (x ∷ buffer) h =
    ap suc (length-splice n bytes buffer (omega (arith, h)))

abbrev pub byte_at : ℕ → List ℕ → ℕ
byte_at pos bytes = elim (get_elem? bytes pos) [ none ↦ 0 | some b ↦ b ]

byte_at-overwrite :
    (bytes buffer : List ℕ) (pos : ℕ)
    → length bytes ≤ length buffer
    → byte_at pos (overwrite bytes buffer)
      ≡ (if ltb pos (length bytes) then byte_at pos bytes else byte_at pos buffer)
byte_at-overwrite [] buffer pos h = ground arith
byte_at-overwrite (b ∷ bytes) [] pos h = absurd (omega (arith, h))
byte_at-overwrite (b ∷ bytes) (x ∷ buffer) zero h = ground arith
byte_at-overwrite (b ∷ bytes) (x ∷ buffer) (suc pos) h =
    ground (arith, byte_at-overwrite bytes buffer pos (omega (arith, h)))

-- Whether a chunk covers a position.
abbrev pub covers : (offset : ℕ) (bytes : List ℕ) (pos : ℕ) → Bool
covers offset bytes pos = leb offset pos && ltb pos (offset + length bytes)

pub byte_at-splice :
    (offset : ℕ) (bytes buffer : List ℕ) (pos : ℕ)
    → offset + length bytes ≤ length buffer
    → byte_at pos (splice offset bytes buffer)
      ≡ (if covers offset bytes pos then byte_at (pos - offset) bytes else byte_at pos buffer)
byte_at-splice zero bytes buffer pos h =
    ground (arith, byte_at-overwrite bytes buffer pos (omega (arith, h)))
byte_at-splice (suc n) bytes [] pos h = absurd (omega (arith, h))
byte_at-splice (suc n) bytes (x ∷ buffer) zero h = ground arith
byte_at-splice (suc n) bytes (x ∷ buffer) (suc pos) h =
    ground (arith, byte_at-splice n bytes buffer pos (omega (arith, h)))

pub byte_at-replicate : (n pos : ℕ) → byte_at pos (replicate n 0) ≡ 0
byte_at-replicate zero pos = refl
byte_at-replicate (suc n) zero = refl
byte_at-replicate (suc n) (suc pos) = byte_at-replicate n pos

pub byte_at-beyond : (pos : ℕ) (bytes : List ℕ) → length bytes ≤ pos → byte_at pos bytes ≡ 0
byte_at-beyond pos [] h = refl
byte_at-beyond zero (b ∷ bytes) h = absurd (omega (arith, h))
byte_at-beyond (suc pos) (b ∷ bytes) h = byte_at-beyond pos bytes (omega (arith, h))

pub take-short : (n : ℕ) (xs : List ℕ) → length xs ≤ n → (take n xs ≡ xs) × (drop n xs ≡ [])
take-short zero [] h = (refl, refl)
take-short zero (x ∷ xs) h = absurd (omega (arith, h))
take-short (suc n) [] h = (refl, refl)
take-short (suc n) (x ∷ xs) h =
    let (same, empty) = take-short n xs (omega (arith, h)) in (ap (λ ys. x ∷ ys) same, empty)

pub length-take_long :
    (n : ℕ) (xs : List ℕ)
    → n ≤ length xs
    → (length (take n xs) ≡ n) × (n + length (drop n xs) ≡ length xs)
length-take_long zero xs h = (refl, omega arith)
length-take_long (suc n) [] h = absurd (omega (arith, h))
length-take_long (suc n) (x ∷ xs) h =
    let (first, rest) = length-take_long n xs (omega (arith, h)) in
    (ap suc first, omega (arith, rest))

pub byte_at-take : (n pos : ℕ) (xs : List ℕ) → pos < n → byte_at pos (take n xs) ≡ byte_at pos xs
byte_at-take zero pos xs h = absurd (omega (arith, h))
byte_at-take (suc n) pos [] h = refl
byte_at-take (suc n) zero (x ∷ xs) h = refl
byte_at-take (suc n) (suc pos) (x ∷ xs) h = byte_at-take n pos xs (omega (arith, h))

pub byte_at-drop :
    (n pos : ℕ) (xs : List ℕ) → n ≤ pos → byte_at (pos - n) (drop n xs) ≡ byte_at pos xs
byte_at-drop zero pos xs h = ap (λ i. byte_at i xs) (omega arith)
byte_at-drop (suc n) pos [] h = ground arith
byte_at-drop (suc n) zero (x ∷ xs) h = absurd (omega (arith, h))
byte_at-drop (suc n) (suc pos) (x ∷ xs) h =
    ap (λ i. byte_at i (drop n xs)) (omega arith) ∙ byte_at-drop n pos xs (omega (arith, h))

-- Buffers of one length with the same bytes are the same.
pub bytes_ext :
    (xs ys : List ℕ)
    → length xs ≡ length ys
    → ((pos : ℕ) → pos < length ys → byte_at pos xs ≡ byte_at pos ys)
    → xs ≡ ys
bytes_ext [] [] same h = refl
bytes_ext [] (y ∷ ys) same h = absurd (omega (arith, same))
bytes_ext (x ∷ xs) [] same h = absurd (omega (arith, same))
bytes_ext (x ∷ xs) (y ∷ ys) same h =
    let first : x ≡ y = h 0 (omega arith) in
    rw first (
      ap (◌∷◌ y)
        (bytes_ext xs ys (omega (arith, same)) (λ pos lt. h (suc pos) (omega (arith, lt)))))

pub length-drop : (n : ℕ) (xs : List ℕ) → n ≤ length xs → n + length (drop n xs) ≡ length xs
length-drop zero xs h = omega arith
length-drop (suc n) [] h = absurd (omega (arith, h))
length-drop (suc n) (x ∷ xs) h = omega (arith, length-drop n xs (omega (arith, h)))
