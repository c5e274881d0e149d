-- ===== src/Storage/Blob/Paths.antt =====
-- The files that the blob store writes on the way stand apart from the blobs.
use roam.Prelude.{
  ℕ, true, false, List, [], ◌∷◌, ◌++◌, length, length-append, ◌≡◌, refl, arith, ◌∙◌, ap, inl, inr,
  Bool-cases,
}
use roam.Prelude.Bytes.{codes}
use roam.Prelude.Keyed.{same_list, text_key}
use roam.Prelude.Trim.{same_text, same_text→eq}
use roam.Storage.Blob.{is_valid_hash, BlobStore, final_path, temp_path, part_path}

same_list-append : (r xs ys : List (List ℕ)) → same_list (r ++ xs) (r ++ ys) ≡ same_list xs ys
same_list-append [] xs ys = refl
same_list-append (x ∷ r) xs ys = rw (text_key.same_self x) (same_list-append r xs ys)

pub length_of_valid : (hash : List ℕ) → is_valid_hash hash ≡ true → length hash ≡ 64
length_of_valid hash h = ground arith

not_longer :
    (a b : List ℕ) → length a ≡ 64 → length b ≡ 64 → same_text a (b ++ codes ".tmp") ≡ false
not_longer a b la lb = elim (Bool-cases (same_text a (b ++ codes ".tmp"))) [
  | inl e ↦ absurd (
      omega (
        arith,
        la,
        lb,
        ap length (same_text→eq a (b ++ codes ".tmp") e),
        length-append b (codes ".tmp"),
      ))
  | inr n ↦ n
]

module _ {Disk : Type 0} (store : BlobStore Disk) where
  pub final_path-final_path :
      (g h : List ℕ) → same_list (final_path store g) (final_path store h) ≡ same_text g h
  final_path-final_path g h =
      same_list-append store.root (g ∷ []) (h ∷ [])
      ∙ elim (Bool-cases (same_text g h)) [ inl e ↦ rw e refl | inr n ↦ rw n refl ]

  pub final_path-temp_path :
      (g h : List ℕ)
      → is_valid_hash g ≡ true
      → is_valid_hash h ≡ true
      → same_list (final_path store g) (temp_path store h) ≡ false
  final_path-temp_path g h vg vh =
      same_list-append store.root (g ∷ []) ((h ++ codes ".tmp") ∷ [])
      ∙ rw (not_longer g h (length_of_valid g vg) (length_of_valid h vh)) refl

  pub final_path-part_path :
      (g h : List ℕ) → same_list (final_path store g) (part_path store h) ≡ false
  final_path-part_path g h =
      same_list-append store.root (g ∷ []) (codes "incoming" ∷ (h ++ codes ".part") ∷ [])
      ∙ elim (Bool-cases (same_text g (codes "incoming"))) [ inl e ↦ rw e refl | inr n ↦ rw n refl ]

  pub part_path-final_path :
      (g h : List ℕ) → same_list (part_path store g) (final_path store h) ≡ false
  part_path-final_path g h =
      same_list-append store.root (codes "incoming" ∷ (g ++ codes ".part") ∷ []) (h ∷ [])
      ∙ elim (Bool-cases (same_text (codes "incoming") h)) [ inl e ↦ rw e refl | inr n ↦ rw n refl ]
