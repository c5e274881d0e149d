-- ===== src/Keychain/Head.antt =====
-- The write head: crates/roam-storage/src/keychain.rs. It is the least of the leaves.
use roam.Prelude.{
  ℕ, true, false, ◌||◌, none, some, List, [], ◌∷◌, if◌then◌else◌, ◌≡◌, refl, arith, sym, Memᴰ, inl,
  inr, Bool-cases, Option-cases,
}
use roam.Prelude.Keyed.{text_before}
use roam.KeyLog.{KeyLogEntry}
use roam.Storage.Keywrap.{KeyCrypto}
use roam.Keychain.{
  epoch0_id, leaves, least, or_epoch0, heads_or_epoch0, select_head, dag_heads, build, epochs_of,
}

-- The order of texts is one: what lies before one text lies before every other, or that other lies
-- before the text.
before-split :
    (xs ys zs : List ℕ) → text_before xs zs ≡ true → (text_before xs ys || text_before ys zs) ≡ true
before-split [] [] [] h = absurd (ground (arith, h))
before-split [] [] (z ∷ zs) h = refl
before-split [] (y ∷ ys) zs h = refl
before-split (x ∷ xs) ys [] h = absurd (ground (arith, h))
before-split (x ∷ xs) [] (z ∷ zs) h = refl
before-split (x ∷ xs) (y ∷ ys) (z ∷ zs) h = ground (arith, before-split xs ys zs)

before-asym : (xs ys : List ℕ) → text_before xs ys ≡ true → text_before ys xs ≡ false
before-asym [] [] h = refl
before-asym [] (y ∷ ys) h = refl
before-asym (x ∷ xs) [] h = absurd (ground (arith, h))
before-asym (x ∷ xs) (y ∷ ys) h = ground (arith, before-asym xs ys)

abbrev pub IsLeast : List ℕ → List (List ℕ) → Type 0
IsLeast id ids = Memᴰ id ids × ((other : List ℕ) → Memᴰ other ids → text_before other id ≡ false)

before_self : (xs : List ℕ) → text_before xs xs ≡ false
before_self [] = refl
before_self (x ∷ xs) = ground (arith, before_self xs)

-- A text and the least of others: the lesser of the two is the least of all.
step-IsLeast :
    (x other : List ℕ) (ids : List (List ℕ))
    → IsLeast other ids
    → IsLeast (if text_before other x then other else x) (x ∷ ids)
step-IsLeast x other ids (m, low) = elim (Bool-cases (text_before other x)) [
  | inl t ↦ rw t (
    Memᴰ.tail m,
    λ y n. elim n [ Memᴰ.head e ↦ rw e (before-asym other x t) | Memᴰ.tail n' ↦ low y n' ],
  )
  | inr f ↦ rw f (
    Memᴰ.head refl,
    λ y n. elim n [
      | Memᴰ.head e ↦ rw e (before_self x)
      | Memᴰ.tail n' ↦ ground (arith, low y n', before-split y other x, f)
    ],
  )
]

single-IsLeast : (x : List ℕ) → IsLeast x (x ∷ [])
single-IsLeast x = (
  Memᴰ.head refl,
  λ y n. elim n [ Memᴰ.head e ↦ rw e (before_self x) | Memᴰ.tail n' ↦ elim n' [ ] ],
)

least-nonempty : (x : List ℕ) (ids : List (List ℕ)) → least (x ∷ ids) ≡ none → ⊥
least-nonempty x ids e = elim (Option-cases (least ids)) [
  | inl empty ↦ ground (arith, rw empty at e)
  | inr (other, some_other) ↦ ground (arith, rw some_other at e)
]

least-IsLeast : (ids : List (List ℕ)) {id : List ℕ} → least ids ≡ some id → IsLeast id ids
least-IsLeast [] h = absurd (ground (arith, h))
least-IsLeast (x ∷ []) {id} h =
    let same : x ≡ id = ground (arith, h) in rw (sym same) (single-IsLeast x)
least-IsLeast (x ∷ y ∷ ids) {id} h = elim (Option-cases (least (y ∷ ids))) [
  | inl empty ↦ absurd (least-nonempty y ids empty)
  | inr (other, e) ↦
      let here : some (if text_before other x then other else x) ≡ some id = rw e at h in
      let same : (if text_before other x then other else x) ≡ id = cc in
      rw (sym same) (step-IsLeast x other (y ∷ ids) (least-IsLeast (y ∷ ids) e))
]

heads-IsLeast : (ids : List (List ℕ)) → IsLeast (or_epoch0 (least ids)) (heads_or_epoch0 ids)
heads-IsLeast [] = single-IsLeast epoch0_id
heads-IsLeast (x ∷ ids) = elim (Option-cases (least (x ∷ ids))) [
  | inl empty ↦ absurd (least-nonempty x ids empty)
  | inr (id, e) ↦ rw e (least-IsLeast (x ∷ ids) e)
]

-- The write head of every keychain is among the heads that a rotation takes as parents, and no other
-- of them lies before it.
pub build-head :
    (crypto : KeyCrypto) (blake3 : List ℕ → List ℕ) (self_peer : ℕ)
    (secret id_key epoch0_key : List ℕ) (entries : List KeyLogEntry)
    → IsLeast
        (build crypto blake3 self_peer secret id_key epoch0_key entries).head
        (dag_heads (build crypto blake3 self_peer secret id_key epoch0_key entries))
unfolding build select_head dag_heads
build-head crypto blake3 self_peer secret id_key epoch0_key entries =
    heads-IsLeast (leaves (epochs_of crypto blake3 self_peer secret epoch0_key entries))
