-- ===== src/Storage/Blob/Finished.antt =====
-- Every blob has the content that its name says, whatever the file system fails at.
use roam.Prelude.{
  ℕ, Bool, true, false, some, List, if◌then◌else◌, ◌≡◌, refl, arith, ◌∙◌, ap, sym, inl, inr,
  Bool-cases, ◌⊎◌,
}
use roam.Prelude.Outcomes.{err, ok, Outcome-cases}
use roam.Prelude.Keyed.{same_list, texts_key, text_key}
use roam.Prelude.Trim.{same_text, same_text→eq}
use roam.Storage.Vfs.{not_found, other, PathBuf}
use roam.Storage.Vfs.Contract.{Files, SameElsewhere, Promises, remove_elsewhere}
use roam.Storage.Blob
use roam.Storage.Blob.{
  BlobStore, is_valid_hash, final_path, temp_path, part_path, put, get, finalize_incoming,
  write_incoming_chunk, size_part, write_part, publish, u64_end, incoming_dir, if_found, move_part,
}
use roam.Storage.Blob.Paths.{final_path-final_path, final_path-temp_path, final_path-part_path}

module _ {Disk : Type 0} (store : BlobStore Disk) (blake3 : List ℕ → List ℕ) where
  -- A blob that is read has the hash that was asked for, on any file system.
  pub get-hash :
      (hash bytes : List ℕ) (d : Disk)
      → get store blake3 hash d ≡ ok (some bytes)
      → blake3 bytes ≡ hash
  unfolding get
  get-hash hash bytes d h = elim (Bool-cases (is_valid_hash hash)) [
    | inr n ↦ absurd (ground (arith, n))
    | inl valid ↦ elim (Outcome-cases (store.fs.read (final_path store hash) d)) [
      | inr (not_found, e) ↦ absurd (ground (arith, valid, e))
      | inr (other, e) ↦ absurd (ground (arith, valid, e))
      | inl (content, e) ↦ elim (Bool-cases (same_text (blake3 content) hash)) [
        | inr n ↦ absurd (ground (arith, valid, e, n))
        | inl t ↦
            let same : content ≡ bytes = ground (arith, valid, e, t) in
            ap blake3 (sym same) ∙ same_text→eq (blake3 content) hash t
      ]
    ]
  ]

  -- What a file system holds under the names of blobs is sound: it hashes to its name.
  abbrev pub AreSound : Files → Type 0
  AreSound files =
      (hash bytes : List ℕ)
      → is_valid_hash hash ≡ true
      → files (final_path store hash) ≡ some bytes
      → blake3 bytes ≡ hash

  abbrev pub KeepsBlobs : Files → Files → Type 0
  KeepsBlobs old new =
      (g : List ℕ) → is_valid_hash g ≡ true → new (final_path store g) ≡ old (final_path store g)

  abbrev pub PlacesBlob : (hash bytes : List ℕ) → Files → Files → Type 0
  PlacesBlob hash bytes old new =
      (g : List ℕ)
      → is_valid_hash g ≡ true
      → new (final_path store g)
        ≡ (if same_text g hash then some bytes else old (final_path store g))

  pub KeepsBlobs-AreSound : (old new : Files) → KeepsBlobs old new → AreSound old → AreSound new
  KeepsBlobs-AreSound old new keeps sound hash bytes valid found =
      sound hash bytes valid (sym (keeps hash valid) ∙ found)

  pub PlacesBlob-AreSound :
      (hash bytes : List ℕ) (old new : Files)
      → blake3 bytes ≡ hash
      → PlacesBlob hash bytes old new
      → AreSound old
      → AreSound new
  PlacesBlob-AreSound hash bytes old new hashed places sound g content valid found =
      elim (Bool-cases (same_text g hash)) [
        | inl t ↦
            let same : bytes ≡ content = ground (arith, places g valid, found, t) in
            ap blake3 (sym same) ∙ hashed ∙ sym (same_text→eq g hash t)
        | inr n ↦ sound g content valid (ground (arith, places g valid, found, n))
      ]

  module _ (files : Disk → Files) (promises : Promises store.fs files) where
    -- A change of one other file keeps the blobs.
    elsewhere-KeepsBlobs :
        (path : PathBuf) (old new : Files)
        → ((g : List ℕ) → is_valid_hash g ≡ true → same_list (final_path store g) path ≡ false)
        → SameElsewhere path old new
        → KeepsBlobs old new
    elsewhere-KeepsBlobs path old new apart same g valid = same (final_path store g) (apart g valid)

    temp-KeepsBlobs :
        (hash : List ℕ) (old new : Files)
        → is_valid_hash hash ≡ true
        → SameElsewhere (temp_path store hash) old new
        → KeepsBlobs old new
    temp-KeepsBlobs hash old new valid =
        elsewhere-KeepsBlobs (temp_path store hash) old new
          (λ g v. final_path-temp_path store g hash v valid)

    pub part-KeepsBlobs :
        (hash : List ℕ) (old new : Files)
        → SameElsewhere (part_path store hash) old new
        → KeepsBlobs old new
    part-KeepsBlobs hash old new =
        elsewhere-KeepsBlobs (part_path store hash) old new
          (λ g v. final_path-part_path store g hash)

    -- What became of bytes to store: nothing to do, a failure without an effect, or a new blob.
    abbrev pub IsStored :
        (existed : Bool) (hash bytes : List ℕ) → Files → Blob.Result (List ℕ) × Disk → Type 0
    IsStored existed hash bytes old out =
        ((existed ≡ true) × (out.0 ≡ ok hash) × KeepsBlobs old (files out.1))
        ⊎ (((e : Blob.BlobError) × (out.0 ≡ err e) × KeepsBlobs old (files out.1))
            ⊎ ((out.0 ≡ ok hash) × PlacesBlob hash bytes old (files out.1)))

    publish-IsStored :
        (hash bytes : List ℕ) (d : Disk) (old : Files)
        → is_valid_hash hash ≡ true
        → files d (temp_path store hash) ≡ some bytes
        → KeepsBlobs old (files d)
        → IsStored false hash bytes old
            (publish store (temp_path store hash) (final_path store hash) hash d)
    publish-IsStored hash bytes d old valid written keeps =
        let temp = temp_path store hash in
        elim (Outcome-cases ((store.fs.rename temp (final_path store hash) d).0)) [
          | inl (done, e) ↦
              let (moved, at_temp, moves) = promises.rename_ok temp (final_path store hash) d e in
              let same : moved ≡ bytes = ground (arith, at_temp, written) in
              inr (
                inr (
                  rw (e, publish) refl,
                  λ g v.
                      rw (e, publish)
                        (moves (final_path store g)
                          ∙ rw
                              (
                                final_path-final_path store g hash,
                                final_path-temp_path store g hash v valid,
                                same,
                              )
                              (elim (Bool-cases (same_text g hash)) [
                                | inl t ↦ rw t refl
                                | inr n ↦ rw n (keeps g v)
                              ])),
                ))
          | inr (failure, e) ↦
              let d1 = (store.fs.rename temp (final_path store hash) d).1 in
              inr (
                inl (
                  Blob.io failure,
                  rw (e, publish) refl,
                  λ g v.
                      rw (e, publish)
                        (temp-KeepsBlobs hash (files d1) (files ((store.fs.remove_file temp d1).1))
                            valid (remove_elsewhere store.fs files promises temp d1) g v
                          ∙ promises.rename_err temp (final_path store hash) d e
                              (final_path store g)
                          ∙ keeps g v),
                ))
        ]

    -- Storing bytes that hash to a valid name: if there is such a blob it stays as it is; if the
    -- file system fails, all blobs are kept; else the result is the hash, the blob of that name has
    -- the bytes, and all other blobs are kept.
    pub put-IsStored :
        (bytes : List ℕ) (d : Disk)
        → is_valid_hash (blake3 bytes) ≡ true
        → IsStored
            (store.fs.exists (final_path store (blake3 bytes)) d)
            (blake3 bytes)
            bytes
            (files d)
            (put store blake3 bytes d)
    unfolding put
    put-IsStored bytes d valid =
        let hash = blake3 bytes in
        let temp = temp_path store hash in
        let d1 = (store.fs.write temp bytes d).1 in
        let keeps =
          temp-KeepsBlobs hash (files d) (files d1) valid (promises.write_elsewhere temp bytes d) in
        elim (Bool-cases (store.fs.exists (final_path store hash) d)) [
          | inl old ↦ rw old (inl (refl, refl, λ g v. refl))
          | inr new ↦ elim (Outcome-cases ((store.fs.write temp bytes d).0)) [
            | inr (e, failed) ↦ rw (new, failed) (inr (inl (Blob.io e, refl, keeps)))
            | inl (done, written) ↦
                let at_temp : files d1 temp ≡ some bytes =
                  promises.write_ok temp bytes d written temp
                  ∙ rw (texts_key.same_self temp) refl in
                rw (new, written) (publish-IsStored hash bytes d1 (files d) valid at_temp keeps)
          ]
        ]

    -- A store whose blobs are sound has sound blobs after any bytes are stored, whatever fails.
    pub put-AreSound :
        (bytes : List ℕ) (d : Disk)
        → is_valid_hash (blake3 bytes) ≡ true
        → AreSound (files d)
        → AreSound (files ((put store blake3 bytes d).1))
    put-AreSound bytes d valid sound =
        let after = files ((put store blake3 bytes d).1) in
        elim (put-IsStored bytes d valid) [
          | inl (old, result, keeps) ↦ KeepsBlobs-AreSound (files d) after keeps sound
          | inr (inl (e, result, keeps)) ↦ KeepsBlobs-AreSound (files d) after keeps sound
          | inr (inr (result, places)) ↦
              PlacesBlob-AreSound (blake3 bytes) bytes (files d) after refl places sound
        ]
