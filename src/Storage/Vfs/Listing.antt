-- ===== src/Storage/Vfs/Listing.antt =====
-- Which directories `create_dir_all` of `MemFs` makes, and what its `read_dir` lists:
-- crates/roam-storage/src/vfs.rs.
use mathlib.Core.List.{append_assoc}
use roam.Prelude.{
  ℕ, Bool, true, false, ◌||◌, Option, some, List, [], ◌∷◌, ◌++◌, map, if◌then◌else◌, ◌≡◌, ◌≢◌, ◌⊎◌,
  refl, sym, arith, ◌∙◌, ap, Memᴰ, inl, inr, Bool-cases, Option-cases,
}
use roam.Prelude.Keyed.{
  find, put, find-put, same_list, same_list→eq, same_list_self, texts_key, text_key,
}
use roam.Prelude.Trim.{same_text, same_text→eq, same_text_self}
use roam.Storage.Vfs.{PathBuf}
use roam.Storage.Vfs.Memory.{is_some, add_dirs, child_of, children}
use roam.Storage.Vfs.Reference.{LeadsTo}

pub same_list-is_some :
    {A : Type 0} (b : Bool) (a : A) (o : Option A)
    → is_some (if b then some a else o) ≡ (b || is_some o)
same_list-is_some true a o = refl
same_list-is_some false a o = refl

put-is_some :
    (q k : PathBuf) (dirs : List (PathBuf × Unit {0}))
    → is_some (find q (put k tt dirs)) ≡ (same_list q k || is_some (find q dirs))
put-is_some q k dirs =
    ap is_some (find-put q k tt dirs) ∙ same_list-is_some (same_list q k) tt (find q dirs)

-- A path that was put in or was there.
put-Either :
    (q k : PathBuf) (dirs : List (PathBuf × Unit {0}))
    → is_some (find q (put k tt dirs)) ≡ true
    → (q ≡ k) ⊎ (is_some (find q dirs) ≡ true)
put-Either q k dirs h = elim (Bool-cases (same_list q k)) [
  | inl t ↦ inl (same_list→eq q k t)
  | inr f ↦ inr (rw f at (sym (put-is_some q k dirs) ∙ h))
]

put-here :
    (k : PathBuf) (dirs : List (PathBuf × Unit {0})) → is_some (find k (put k tt dirs)) ≡ true
put-here k dirs = put-is_some k k dirs ∙ rw (same_list_self k) refl

put-stays :
    (q k : PathBuf) (dirs : List (PathBuf × Unit {0}))
    → is_some (find q dirs) ≡ true
    → is_some (find q (put k tt dirs)) ≡ true
put-stays q k dirs h = ground (arith, put-is_some q k dirs, h)

-- A path that `add_dirs` comes to.
abbrev IsBelow : (current rest q : PathBuf) → Type 0
IsBelow current rest q = (front : PathBuf) × (q ≡ current ++ front) × LeadsTo front rest

pub add_dirs-Either :
    (current rest : PathBuf) (dirs : List (PathBuf × Unit {0})) (q : PathBuf)
    → is_some (find q (add_dirs current rest dirs)) ≡ true
    → (is_some (find q dirs) ≡ true) ⊎ IsBelow current rest q
add_dirs-Either current [] dirs q h = inl h
add_dirs-Either current (part ∷ rest) dirs q h =
    let here = current ++ part ∷ [] in
    elim (add_dirs-Either here rest (put here tt dirs) q h) [
      | inl known ↦ elim (put-Either q here dirs known) [
        | inl e ↦ inr (part ∷ [], e, ((λ n. absurd (ground arith)), (rest, refl)))
        | inr old ↦ inl old
      ]
      | inr (front, e, (some_front, (back, joined))) ↦ inr (
        part ∷ front,
        e ∙ append_assoc current (part ∷ []) front,
        ((λ n. absurd (ground arith)), (back, ap (λ ps. part ∷ ps) joined)),
      )
    ]

pub add_dirs-stays :
    (current rest : PathBuf) (dirs : List (PathBuf × Unit {0})) (q : PathBuf)
    → is_some (find q dirs) ≡ true
    → is_some (find q (add_dirs current rest dirs)) ≡ true
add_dirs-stays current [] dirs q h = h
add_dirs-stays current (part ∷ rest) dirs q h =
    let here = current ++ part ∷ [] in
    add_dirs-stays here rest (put here tt dirs) q (put-stays q here dirs h)

pub add_dirs-comes :
    (current rest : PathBuf) (dirs : List (PathBuf × Unit {0})) (q front back : PathBuf)
    → q ≡ current ++ front
    → front ≢ []
    → front ++ back ≡ rest
    → is_some (find q (add_dirs current rest dirs)) ≡ true
add_dirs-comes current rest dirs q [] back e some_front joined = absurd (some_front refl)
add_dirs-comes current [] dirs q (p ∷ front) back e some_front joined = absurd (ground arith)
add_dirs-comes current (part ∷ rest) dirs q (p ∷ []) back e some_front joined =
    let first : p ≡ part = cc in
    let here = current ++ part ∷ [] in
    let at : q ≡ here = e ∙ ap (λ x. current ++ x ∷ []) first in
    add_dirs-stays here rest (put here tt dirs) q (rw at (put-here here dirs))
add_dirs-comes current (part ∷ rest) dirs q (p ∷ next ∷ front) back e some_front joined =
    let first : p ≡ part = cc in
    let tail : (next ∷ front) ++ back ≡ rest = cc in
    let here = current ++ part ∷ [] in
    let at : q ≡ here ++ next ∷ front =
      e
      ∙ ap (λ x. current ++ x ∷ next ∷ front) first
      ∙ sym (append_assoc current (part ∷ []) (next ∷ front)) in
    add_dirs-comes here rest (put here tt dirs) q (next ∷ front) back at
      (λ n. absurd (ground arith)) tail

module _ {A : Type 0} where
  pub mem_of_find :
      (k : PathBuf) (m : List (PathBuf × A)) → is_some (find k m) ≡ true → (a : A) × Memᴰ (k, a) m
  mem_of_find k [] h = absurd (ground (arith, h))
  mem_of_find k ((j, v) ∷ m) h = elim (Bool-cases (same_list k j)) [
    | inl t ↦ (v, Memᴰ.head (ap (λ i. (i, v)) (same_list→eq k j t)))
    | inr f ↦ let (a, n) = mem_of_find k m (rw f at h) in (a, Memᴰ.tail n)
  ]

  pub find_of_mem :
      (k : PathBuf) (a : A) (m : List (PathBuf × A)) → Memᴰ (k, a) m → is_some (find k m) ≡ true
  find_of_mem k a [] n = elim n [ ]
  find_of_mem k a ((j, v) ∷ m) (Memᴰ.head e) =
      let same : k ≡ j = ap (λ entry. entry.0) e in rw (sym same) (rw (same_list_self k) refl)
  find_of_mem k a ((j, v) ∷ m) (Memᴰ.tail n) = elim (Bool-cases (same_list k j)) [
    | inl t ↦ rw t refl
    | inr f ↦ rw f (find_of_mem k a m n)
  ]

pub find_of_key :
    (q : PathBuf) (m : List (PathBuf × Unit {0}))
    → Memᴰ q (map (λ entry. entry.0) m)
    → is_some (find q m) ≡ true
find_of_key q [] n = elim n [ ]
find_of_key q ((j, v) ∷ m) (Memᴰ.head e) = rw e (rw (same_list_self j) refl)
find_of_key q ((j, v) ∷ m) (Memᴰ.tail n) = elim (Bool-cases (same_list q j)) [
  | inl t ↦ rw t refl
  | inr f ↦ rw f (find_of_key q m n)
]

pub key_of_find :
    (q : PathBuf) (m : List (PathBuf × Unit {0}))
    → is_some (find q m) ≡ true
    → Memᴰ q (map (λ entry. entry.0) m)
key_of_find q [] h = absurd (ground (arith, h))
key_of_find q ((j, v) ∷ m) h = elim (Bool-cases (same_list q j)) [
  | inl t ↦ Memᴰ.head (same_list→eq q j t)
  | inr f ↦ Memᴰ.tail (key_of_find q m (rw f at h))
]

child_of-below :
    (path existing : PathBuf) {name : List ℕ}
    → child_of path existing ≡ some name
    → (rest : PathBuf) × (existing ≡ path ++ name ∷ rest)
child_of-below [] [] h = absurd (ground (arith, h))
child_of-below [] (first ∷ rest) {name} h =
    let here : some first ≡ some name = h in
    let same : first ≡ name = cc in (rest, ap (λ x. x ∷ rest) same)
child_of-below (part ∷ path) [] h = absurd (ground (arith, h))
child_of-below (part ∷ path) (first ∷ existing) {name} h =
    elim (Bool-cases (same_text part first)) [
      | inr f ↦ absurd (ground (arith, rw f at h))
      | inl t ↦
          let (rest, e) = child_of-below path existing (rw t at h) in
          (rest, rw (same_text→eq part first t) (ap (λ ps. first ∷ ps) e))
    ]

child_of-entry :
    (path : PathBuf) (name : List ℕ) (rest : PathBuf)
    → child_of path (path ++ name ∷ rest) ≡ some name
child_of-entry [] name rest = refl
child_of-entry (part ∷ path) name rest = rw (same_text_self part) (child_of-entry path name rest)

-- An entry of a directory, from one of the paths below it.
abbrev IsEntry : {A : Type 0} → PathBuf → List (PathBuf × A) → PathBuf → Type 0
IsEntry {A} path entries q =
    (name : List ℕ) × (rest : PathBuf) × (a : A) × Memᴰ (path ++ name ∷ rest, a) entries
    × (q ≡ path ++ name ∷ [])

module _ {A : Type 0} where
  pub children-Either :
      (path : PathBuf) (entries : List (PathBuf × A)) (out : List (PathBuf × Unit {0}))
      (q : PathBuf)
      → is_some (find q (children path entries out)) ≡ true
      → (is_some (find q out) ≡ true) ⊎ IsEntry path entries q
  children-Either path [] out q h = inl h
  children-Either path ((existing, a) ∷ entries) out q h =
      elim (Option-cases (child_of path existing)) [
        | inl e ↦ elim (children-Either path entries out q (rw e at h)) [
          | inl old ↦ inl old
          | inr (name, rest, b, m, at) ↦ inr (name, rest, b, Memᴰ.tail m, at)
        ]
        | inr (first, e) ↦
            let child = path ++ first ∷ [] in
            elim (children-Either path entries (put child tt out) q (rw e at h)) [
              | inl known ↦ elim (put-Either q child out known) [
                | inl at ↦
                    let (rest, below) = child_of-below path existing e in
                    inr (first, rest, a, Memᴰ.head (ap (λ p. (p, a)) (sym below)), at)
                | inr old ↦ inl old
              ]
              | inr (name, rest, b, m, at) ↦ inr (name, rest, b, Memᴰ.tail m, at)
            ]
      ]

  pub children-stays :
      (path : PathBuf) (entries : List (PathBuf × A)) (out : List (PathBuf × Unit {0}))
      (q : PathBuf)
      → is_some (find q out) ≡ true
      → is_some (find q (children path entries out)) ≡ true
  children-stays path [] out q h = h
  children-stays path ((existing, a) ∷ entries) out q h =
      elim (Option-cases (child_of path existing)) [
        | inl e ↦ rw e (children-stays path entries out q h)
        | inr (first, e) ↦
            let child = path ++ first ∷ [] in
            rw e (children-stays path entries (put child tt out) q (put-stays q child out h))
      ]

  pub children-comes :
      (path : PathBuf) (entries : List (PathBuf × A)) (out : List (PathBuf × Unit {0}))
      (name : List ℕ) (rest : PathBuf) (a : A)
      → Memᴰ (path ++ name ∷ rest, a) entries
      → is_some (find (path ++ name ∷ []) (children path entries out)) ≡ true
  children-comes path [] out name rest a m = elim m [ ]
  children-comes path ((existing, b) ∷ entries) out name rest a (Memᴰ.head e) =
      let same : path ++ name ∷ rest ≡ existing = ap (λ entry. entry.0) e in
      let first : child_of path existing ≡ some name =
        ap (child_of path) (sym same) ∙ child_of-entry path name rest in
      let child = path ++ name ∷ [] in
      rw first (children-stays path entries (put child tt out) child (put-here child out))
  children-comes path ((existing, b) ∷ entries) out name rest a (Memᴰ.tail m) =
      elim (Option-cases (child_of path existing)) [
        | inl e ↦ rw e (children-comes path entries out name rest a m)
        | inr (first, e) ↦
            rw e (children-comes path entries (put (path ++ first ∷ []) tt out) name rest a m)
      ]
