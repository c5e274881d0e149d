-- ===== src/Prelude/Sets.antt =====
-- The standard library's BTreeSet over unsigned numbers: an ascending list without repetitions.
use Prim.Native.Nat.{ℕ, ◌≤◌, ◌<◌}
use mathlib.Core.Path.{◌≡◌, refl}
use mathlib.Core.Bool.{true, ◌||◌}
use mathlib.Core.List.{List, [], ◌∷◌}
use native.Mathlib.Omega.{arith}
use roam.Prelude.Tests.{◌==◌, ltb, if◌then◌else◌}
use roam.Prelude.Maps.{contains}

-- `BTreeSet::insert`
abbrev pub insert_sorted : ℕ → List ℕ → List ℕ
insert_sorted a [] = a ∷ []
insert_sorted a (x ∷ xs) =
    let rest = insert_sorted a xs in
    if a == x then x ∷ xs else if ltb a x then a ∷ x ∷ xs else x ∷ rest

abbrev pub AllAbove : ℕ → List ℕ → Type 0
AllAbove b [] = Unit
AllAbove b (x ∷ xs) = (b < x) × AllAbove b xs

abbrev pub IsSortedSet : List ℕ → Type 0
IsSortedSet [] = Unit
IsSortedSet (x ∷ xs) = AllAbove x xs × IsSortedSet xs

pub AllAbove-mono : (b c : ℕ) (xs : List ℕ) → b ≤ c → AllAbove c xs → AllAbove b xs
AllAbove-mono b c [] le h = tt
AllAbove-mono b c (x ∷ xs) le h = (omega arith, AllAbove-mono b c xs le h.1)

AllAbove-insert_sorted :
    (b a : ℕ) (xs : List ℕ) → b < a → AllAbove b xs → AllAbove b (insert_sorted a xs)
AllAbove-insert_sorted b a [] lt h = (lt, tt)
AllAbove-insert_sorted b a (x ∷ xs) lt h = ground (arith, AllAbove-insert_sorted b a xs lt h.1)

pub insert_sorted-IsSortedSet :
    (a : ℕ) (xs : List ℕ) → IsSortedSet xs → IsSortedSet (insert_sorted a xs)
insert_sorted-IsSortedSet a [] h = (tt, tt)
insert_sorted-IsSortedSet a (x ∷ xs) h =
    ground (
      arith,
      insert_sorted-IsSortedSet a xs h.1,
      AllAbove-mono a x xs,
      AllAbove-insert_sorted x a xs,
    )

pub contains-insert_sorted :
    (a b : ℕ) (xs : List ℕ) → contains a (insert_sorted b xs) ≡ (a == b || contains a xs)
contains-insert_sorted a b [] = refl
contains-insert_sorted a b (x ∷ xs) = ground (arith, contains-insert_sorted a b xs)

pub lt_of_contains : (b a : ℕ) (xs : List ℕ) → AllAbove b xs → contains a xs ≡ true → b < a
lt_of_contains b a [] h c = absurd (ground arith)
lt_of_contains b a (x ∷ xs) h c = ground (arith, lt_of_contains b a xs h.1)
