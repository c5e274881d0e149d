-- ===== src/Prelude/Maps.antt =====
-- The standard library's sets and maps over unsigned keys. A HashSet is a list without repetitions;
-- a BTreeMap is an association list in ascending key order, which `upsert` keeps.
use Prim.Native.Nat.{ℕ, ◌≤◌, ◌<◌}
use mathlib.Core.Path.{◌≡◌, refl}
use mathlib.Core.Logic.{inl, inr}
use mathlib.Core.Bool.{Bool, true, false, ◌||◌}
use mathlib.Core.Option.{Option, none, some}
use mathlib.Core.List.{List, [], ◌∷◌, Memᴰ}
use native.Mathlib.Omega.{arith}
use roam.Prelude.Tests.{◌==◌, ltb, if◌then◌else◌, Bool-cases, ==_self, ==→eq}

-- `HashSet::contains`
abbrev pub contains : ℕ → List ℕ → Bool
contains a [] = false
contains a (x ∷ xs) = a == x || contains a xs

-- `HashSet::insert`
abbrev pub insert : ℕ → List ℕ → List ℕ
insert a xs = if contains a xs then xs else a ∷ xs

pub contains-insert : (a b : ℕ) (xs : List ℕ) → contains a (insert b xs) ≡ (a == b || contains a xs)
contains-insert a b xs = elim (Bool-cases (contains b xs)) [
  | inl old ↦
      rw old (elim (Bool-cases (a == b)) [
        | inl e ↦ rw (==→eq a b e) (rw (old, ==_self b))
        | inr n ↦ rw n
      ])
  | inr new ↦ rw new
]

pub mem_of_contains : {a : ℕ} (xs : List ℕ) → contains a xs ≡ true → Memᴰ a xs
mem_of_contains {a} [] h = absurd (ground arith)
mem_of_contains {a} (x ∷ xs) h = elim (Bool-cases (a == x)) [
  | inl e ↦ Memᴰ.head (==→eq a x e)
  | inr n ↦ Memᴰ.tail (mem_of_contains xs (rw n at h))
]

pub contains_of_mem : {a : ℕ} (xs : List ℕ) → Memᴰ a xs → contains a xs ≡ true
contains_of_mem {a} [] m = elim m [ ]
contains_of_mem {a} (x ∷ xs) (Memᴰ.head e) = rw e (rw (==_self x))
contains_of_mem {a} (x ∷ xs) (Memᴰ.tail m) = ground (arith, contains_of_mem xs m)

module _ {V : Type 0} where
  -- `BTreeMap::get`
  abbrev pub lookup : ℕ → List (ℕ × V) → Option V
  lookup k [] = none
  lookup k ((j, v) ∷ m) = if k == j then some v else lookup k m

  -- `entry(k)`: what stands under the key, if anything, is replaced by the function's value.
  abbrev pub upsert : ℕ → (Option V → V) → List (ℕ × V) → List (ℕ × V)
  upsert k f [] = (k, f none) ∷ []
  upsert k f ((j, v) ∷ m) =
      let rest = upsert k f m in
      if k == j
      then (j, f (some v)) ∷ m
      else if ltb k j
      then (k, f none) ∷ (j, v) ∷ m
      else (j, v) ∷ rest

  -- Every key lies above the bound.
  abbrev pub Above : ℕ → List (ℕ × V) → Type 0
  Above b [] = Unit
  Above b ((j, v) ∷ m) = (b < j) × Above b m

  abbrev pub IsAscending : List (ℕ × V) → Type 0
  IsAscending [] = Unit
  IsAscending ((j, v) ∷ m) = Above j m × IsAscending m

  pub Above-lookup : (b k : ℕ) (m : List (ℕ × V)) → Above b m → k ≤ b → lookup k m ≡ none
  Above-lookup b k [] h le = refl
  Above-lookup b k ((j, v) ∷ m) h le = ground (arith, Above-lookup b k m h.1 le)

  pub Above-mono : (b c : ℕ) (m : List (ℕ × V)) → b ≤ c → Above c m → Above b m
  Above-mono b c [] le h = tt
  Above-mono b c ((j, v) ∷ m) le h = (omega arith, Above-mono b c m le h.1)

  pub Above-upsert :
      (b k : ℕ) (f : Option V → V) (m : List (ℕ × V)) → b < k → Above b m → Above b (upsert k f m)
  Above-upsert b k f [] lt h = (lt, tt)
  Above-upsert b k f ((j, v) ∷ m) lt h = ground (arith, Above-upsert b k f m lt h.1)

  pub upsert-IsAscending :
      (k : ℕ) (f : Option V → V) (m : List (ℕ × V)) → IsAscending m → IsAscending (upsert k f m)
  upsert-IsAscending k f [] h = (tt, tt)
  upsert-IsAscending k f ((j, v) ∷ m) h =
      ground (arith, upsert-IsAscending k f m h.1, Above-mono k j m, Above-upsert j k f m)

  pub lookup-upsert :
      (k : ℕ) (f : Option V → V) (i : ℕ) (m : List (ℕ × V))
      → IsAscending m
      → lookup i (upsert k f m) ≡ (if i == k then some (f (lookup k m)) else lookup i m)
  lookup-upsert k f i [] h = refl
  lookup-upsert k f i ((j, v) ∷ m) h =
      ground (arith, lookup-upsert k f i m h.1, Above-lookup j k m h.0)

  pub mem_of_lookup : (k : ℕ) (m : List (ℕ × V)) {v : V} → lookup k m ≡ some v → Memᴰ (k, v) m
  mem_of_lookup k [] h = absurd (ground arith)
  mem_of_lookup k ((j, w) ∷ m) {v} h = elim (Bool-cases (k == j)) [
    | inl e ↦ Memᴰ.head (ground (arith, ==→eq k j e))
    | inr n ↦ Memᴰ.tail (mem_of_lookup k m (rw n at h))
  ]
