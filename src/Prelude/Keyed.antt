-- ===== src/Prelude/Keyed.antt =====
-- The standard library's maps over keys of any ordered type: a BTreeMap is an association list in
-- ascending key order. A HashMap is one too, since no code that is modelled depends on its order.
use mathlib.Core.Path.{◌≡◌, refl, ap}
use mathlib.Core.Logic.{inl, inr}
use mathlib.Core.Bool.{Bool, true, false, ◌&&◌}
use mathlib.Core.Option.{Option, none, some}
use mathlib.Core.List.{List, [], ◌∷◌}
use Prim.Native.Nat.{ℕ}
use native.Mathlib.Omega.{arith}
use roam.Prelude.Tests.{◌==◌, ltb, if◌then◌else◌, Bool-cases, ==_self, ==→eq}
use roam.Prelude.Trim.{same_text, same_text→eq, same_text_self}

pub record Key (K : Type 0) : Type 0 where
  pub same : K → K → Bool
  pub before : K → K → Bool
  pub same_self : (k : K) → same k k ≡ true
  pub same→eq : (j k : K) → same j k ≡ true → j ≡ k

instance abbrev pub number_key : Key ℕ
number_key = record { same = ◌==◌; before = ltb; same_self = ==_self; same→eq = ==→eq }

-- The order of byte strings.
abbrev pub text_before : List ℕ → List ℕ → Bool
text_before xs [] = false
text_before [] (y ∷ ys) = true
text_before (x ∷ xs) (y ∷ ys) =
    let rest = text_before xs ys in if ltb x y then true else if x == y then rest else false

instance abbrev pub text_key : Key (List ℕ)
text_key = record {
  same = same_text;
  before = text_before;
  same_self = same_text_self;
  same→eq = same_text→eq;
}

module _ {K : Type 0} ⦃key : Key K⦄ where
  -- A key is not the one that another key is not.
  same-apart : (i j k : K) → key.same k j ≡ false → key.same i j ≡ true → key.same i k ≡ false
  same-apart i j k ne e = elim (Bool-cases (key.same i k)) [
    | inl t ↦ absurd (ground (arith, ne, rw (key.same→eq i k t) at e))
    | inr f ↦ f
  ]

module _ {K : Type 0} ⦃key : Key K⦄ where
  abbrev pub same_list : List K → List K → Bool
  same_list [] [] = true
  same_list [] (y ∷ ys) = false
  same_list (x ∷ xs) [] = false
  same_list (x ∷ xs) (y ∷ ys) = key.same x y && same_list xs ys

  -- The lexicographic order.
  abbrev pub list_before : List K → List K → Bool
  list_before xs [] = false
  list_before [] (y ∷ ys) = true
  list_before (x ∷ xs) (y ∷ ys) =
      let rest = list_before xs ys in
      if key.before x y then true else if key.same x y then rest else false

  pub same_list_self : (xs : List K) → same_list xs xs ≡ true
  same_list_self [] = refl
  same_list_self (x ∷ xs) = rw (key.same_self x) (same_list_self xs)

  pub same_list→eq : (xs ys : List K) → same_list xs ys ≡ true → xs ≡ ys
  same_list→eq [] [] h = refl
  same_list→eq [] (y ∷ ys) h = absurd (ground (arith, h))
  same_list→eq (x ∷ xs) [] h = absurd (ground (arith, h))
  same_list→eq (x ∷ xs) (y ∷ ys) h = elim (Bool-cases (key.same x y)) [
    | inl e ↦ rw (key.same→eq x y e) (ap (◌∷◌ y) (same_list→eq xs ys (rw e at h)))
    | inr n ↦ absurd (ground (arith, rw n at h))
  ]

-- A list of texts, such as the components of a path.
instance abbrev pub texts_key : Key (List (List ℕ))
texts_key = record {
  same = same_list;
  before = list_before;
  same_self = same_list_self;
  same→eq = same_list→eq;
}

module _ {K V : Type 0} ⦃key : Key K⦄ where
  abbrev pub find : K → List (K × V) → Option V
  find k [] = none
  find k ((j, v) ∷ m) = if key.same k j then some v else find k m

  abbrev pub put : K → V → List (K × V) → List (K × V)
  put k v [] = (k, v) ∷ []
  put k v ((j, w) ∷ m) =
      let rest = put k v m in
      if key.same k j
      then (j, v) ∷ m
      else if key.before k j
      then (k, v) ∷ (j, w) ∷ m
      else (j, w) ∷ rest

  abbrev pub delete : K → List (K × V) → List (K × V)
  delete k [] = []
  delete k ((j, v) ∷ m) = if key.same k j then delete k m else (j, v) ∷ delete k m

  pub find-put :
      (i k : K) (v : V) (m : List (K × V))
      → find i (put k v m) ≡ (if key.same i k then some v else find i m)
  find-put i k v [] = refl
  find-put i k v ((j, w) ∷ m) = elim (Bool-cases (key.same k j)) [
    | inl e ↦ rw e (
        rw (key.same→eq k j e)
          (elim (Bool-cases (key.same i j)) [ inl t ↦ rw t refl | inr f ↦ rw f refl ]))
    | inr n ↦ rw n (elim (Bool-cases (key.before k j)) [
      | inl b ↦ rw b refl
      | inr a ↦ rw a (elim (Bool-cases (key.same i j)) [
        | inl t ↦ rw (t, same-apart i j k n t) refl
        | inr f ↦ rw f (find-put i k v m)
      ])
    ])
  ]

  pub find-delete :
      (i k : K) (m : List (K × V)) → find i (delete k m) ≡ (if key.same i k then none else find i m)
  find-delete i k [] = elim (Bool-cases (key.same i k)) [ inl t ↦ rw t refl | inr f ↦ rw f refl ]
  find-delete i k ((j, w) ∷ m) = elim (Bool-cases (key.same k j)) [
    | inl e ↦ rw e (
        rw (find-delete i k m) (
          rw (key.same→eq k j e)
            (elim (Bool-cases (key.same i j)) [ inl t ↦ rw t refl | inr f ↦ rw f refl ])))
    | inr n ↦ rw n (elim (Bool-cases (key.same i j)) [
      | inl t ↦ rw (t, same-apart i j k n t) refl
      | inr f ↦ rw f (find-delete i k m)
    ])
  ]
