-- ===== src/Storage/Blob/Incoming.antt =====
-- Partial blobs: the chunks that come in, and the check of the whole.
use roam.Prelude.{
  ℕ, ◌+◌, Bool, true, false, some, List, length, ltb, leb, ◌==◌, if◌then◌else◌, ◌≡◌, refl, arith,
  ◌∙◌, inl, inr, Bool-cases, ◌⊎◌,
}
use roam.Prelude.Outcomes.{err, ok, Outcome-cases}
use roam.Prelude.Keyed.{same_list, texts_key, text_key}
use roam.Prelude.Trim.{same_text, same_text→eq}
use roam.Storage.Vfs.{not_found, other}
use roam.Storage.Vfs.Contract.{Files, SameElsewhere, Promises, remove_elsewhere}
use roam.Storage.Blob
use roam.Storage.Blob.{
  BlobStore, is_valid_hash, final_path, temp_path, part_path, put, get, finalize_incoming,
  write_incoming_chunk, size_part, write_part, publish, u64_end, incoming_dir, if_found, move_part,
}
use roam.Storage.Blob.Paths.{final_path-final_path, final_path-part_path}
use roam.Storage.Blob.{copy_over}
use roam.Storage.Blob.Finished.{
  AreSound, KeepsBlobs, PlacesBlob, KeepsBlobs-AreSound, PlacesBlob-AreSound, part-KeepsBlobs,
}

module _ {Disk : Type 0} (store : BlobStore Disk) (files : Disk → Files)
    (promises : Promises store.fs files) where
  write_part-SameElsewhere :
      (hash : List ℕ) (offset : ℕ) (bytes : List ℕ) (d : Disk) (old : Files)
      → SameElsewhere (part_path store hash) old (files d)
      → SameElsewhere (part_path store hash) old (files ((write_part store hash offset bytes d).1))
  write_part-SameElsewhere hash offset bytes d old same path ne =
      promises.write_range_elsewhere (part_path store hash) offset bytes d path ne ∙ same path ne

  size_part-SameElsewhere :
      (hash : List ℕ) (offset total_len : ℕ) (bytes : List ℕ) (d : Disk) (old : Files)
      → SameElsewhere (part_path store hash) old (files d)
      → SameElsewhere
          (part_path store hash)
          old
          (files ((size_part store hash offset total_len bytes d).1))
  size_part-SameElsewhere hash offset total_len bytes d old same =
      let part = part_path store hash in
      let d1 = (store.fs.create_sized part total_len d).1 in
      let sized : SameElsewhere part old (files d1) =
        λ path ne. promises.create_sized_elsewhere part total_len d path ne ∙ same path ne in
      elim (Bool-cases (store.fs.exists part d)) [
        | inl there ↦ elim (Outcome-cases (store.fs.file_len part d)) [
          | inr (e, failed) ↦ rw (there, failed) same
          | inl (pinned, len) ↦ elim (Bool-cases (pinned == total_len)) [
            | inl t ↦ rw (there, len, t) (write_part-SameElsewhere hash offset bytes d old same)
            | inr n ↦ rw (there, len, n) same
          ]
        ]
        | inr absent ↦ elim (Outcome-cases ((store.fs.create_sized part total_len d).0)) [
          | inr (e, failed) ↦ rw (absent, failed) sized
          | inl (done, made) ↦
              rw (absent, made) (write_part-SameElsewhere hash offset bytes d1 old sized)
        ]
      ]

  -- A chunk that comes in changes no file but the partial one of its hash, whatever fails: so no
  -- blob changes.
  pub write_incoming_chunk-SameElsewhere :
      (hash : List ℕ) (offset total_len : ℕ) (bytes : List ℕ) (d : Disk)
      → SameElsewhere
          (part_path store hash)
          (files d)
          (files ((write_incoming_chunk store hash offset total_len bytes d).1))
  unfolding write_incoming_chunk
  write_incoming_chunk-SameElsewhere hash offset total_len bytes d =
      let end = offset + length bytes in
      let d1 = (store.fs.create_dir_all (incoming_dir store) d).1 in
      let same : SameElsewhere (part_path store hash) (files d) (files d1) =
        λ path ne. promises.create_dir_all_kept (incoming_dir store) d path in
      elim (Bool-cases (is_valid_hash hash)) [
        | inr n ↦ rw n (λ path ne. refl)
        | inl valid ↦ elim (Bool-cases (leb u64_end end)) [
          | inl t ↦ rw (valid, t) (λ path ne. refl)
          | inr fits ↦ elim (Bool-cases (ltb total_len end)) [
            | inl t ↦ rw (valid, fits, t) (λ path ne. refl)
            | inr inside ↦
                elim (Outcome-cases ((store.fs.create_dir_all (incoming_dir store) d).0)) [
                  | inr (e, failed) ↦ rw (valid, fits, inside, failed) same
                  | inl (done, made) ↦
                      rw (valid, fits, inside, made)
                        (size_part-SameElsewhere hash offset total_len bytes d1 (files d) same)
                ]
          ]
        ]
      ]

  module _ (blake3 : List ℕ → List ℕ) where
    -- What became of a partial blob: it is a blob now; it was not there or was thrown away; or there
    -- was an error, after which the blob of its own name may be damaged.
    abbrev pub IsSettled : (hash : List ℕ) → Files → Blob.Result Bool × Disk → Type 0
    IsSettled hash old out =
        ((out.0 ≡ ok true)
          × (bytes : List ℕ) × (blake3 bytes ≡ hash)
          × PlacesBlob store blake3 hash bytes old (files out.1))
        ⊎ (((out.0 ≡ ok false) × KeepsBlobs store blake3 old (files out.1))
            ⊎ ((e : Blob.BlobError) × (out.0 ≡ err e)
                × SameElsewhere (final_path store hash) old (λ path.
                  if same_list path (part_path store hash) then old path else files out.1 path)))

    move_part-IsSettled :
        (hash bytes : List ℕ) (d : Disk)
        → files d (part_path store hash) ≡ some bytes
        → blake3 bytes ≡ hash
        → IsSettled hash (files d) (move_part store hash bytes d)
    move_part-IsSettled hash bytes d at_part hashed =
        let part = part_path store hash in
        let final = final_path store hash in
        let renamed = store.fs.rename part final d in
        let d1 = renamed.1 in
        let written = store.fs.write final bytes d1 in
        let d2 = written.1 in
        let removed = remove_elsewhere store.fs files promises part d2 in
        elim (Outcome-cases renamed.0) [
          | inl (done, e) ↦
              let (moved, found, moves) = promises.rename_ok part final d e in
              let same : moved ≡ bytes = ground (arith, found, at_part) in
              rw (move_part, e)
                (inl (
                  refl,
                  bytes,
                  hashed,
                  λ g v.
                      moves (final_path store g)
                      ∙ rw
                          (
                            final_path-final_path store g hash,
                            final_path-part_path store g hash,
                            same,
                          )
                          refl,
                ))
          | inr (failure, e) ↦ elim (Outcome-cases written.0) [
            | inl (done, w) ↦
                rw (move_part, e, copy_over, w)
                  (inl (
                    refl,
                    bytes,
                    hashed,
                    λ g v.
                        removed (final_path store g) (final_path-part_path store g hash)
                        ∙ promises.write_ok final bytes d1 w (final_path store g)
                        ∙ rw (final_path-final_path store g hash)
                            (elim (Bool-cases (same_text g hash)) [
                              | inl t ↦ rw t refl
                              | inr n ↦
                                  rw n (promises.rename_err part final d e (final_path store g))
                            ]),
                  ))
            | inr (worse, w) ↦
                rw (move_part, e, copy_over, w)
                  (inr (
                    inr (
                      Blob.io worse,
                      refl,
                      λ path ne. elim (Bool-cases (same_list path part)) [
                        | inl t ↦ rw t refl
                        | inr n ↦ rw n (
                            removed path n
                            ∙ promises.write_elsewhere final bytes d1 path ne
                            ∙ promises.rename_err part final d e path)
                      ],
                    )))
          ]
        ]

    -- The check of a partial blob: true means that the blob of its name is there and hashes to it,
    -- and all other blobs are kept; false means that all blobs are kept; after an error no file but
    -- the blob and the partial blob has changed.
    pub finalize_incoming-IsSettled :
        (hash : List ℕ) (d : Disk)
        → IsSettled hash (files d) (finalize_incoming store blake3 hash d)
    unfolding finalize_incoming
    finalize_incoming-IsSettled hash d =
        let part = part_path store hash in
        let removed = remove_elsewhere store.fs files promises part d in
        elim (Bool-cases (is_valid_hash hash)) [
          | inr n ↦ rw n (inr (inr (Blob.invalid_hash, refl, λ path ne. ground arith)))
          | inl valid ↦ elim (Outcome-cases (store.fs.read part d)) [
            | inr (not_found, e) ↦ rw (valid, e) (inr (inl (refl, λ g v. refl)))
            | inr (other, e) ↦
                rw (valid, e) (inr (inr (Blob.io other, refl, λ path ne. ground arith)))
            | inl (bytes, e) ↦ elim (Bool-cases (same_text (blake3 bytes) hash)) [
              | inl t ↦
                  rw (valid, e, t)
                    (move_part-IsSettled hash bytes d (promises.read_ok part d e)
                      (same_text→eq (blake3 bytes) hash t))
              | inr n ↦
                  rw (valid, e, n)
                    (inr (
                      inl (
                        refl,
                        λ g v. removed (final_path store g) (final_path-part_path store g hash),
                      )))
            ]
          ]
        ]

    -- Sound blobs stay sound when a chunk comes in, and when a partial blob is checked without an
    -- error.
    pub incoming-AreSound :
        (hash : List ℕ) (offset total_len : ℕ) (bytes : List ℕ) (d : Disk)
        → AreSound store blake3 (files d)
        → AreSound store blake3
            (files ((write_incoming_chunk store hash offset total_len bytes d).1))
          × ((placed : Bool)
              → (finalize_incoming store blake3 hash d).0 ≡ ok placed
              → AreSound store blake3 (files ((finalize_incoming store blake3 hash d).1)))
    incoming-AreSound hash offset total_len bytes d sound = (
      KeepsBlobs-AreSound store blake3 (files d) (files chunked)
          (part-KeepsBlobs store blake3 files promises hash (files d) (files chunked)
            (write_incoming_chunk-SameElsewhere hash offset total_len bytes d))
          sound,
      λ placed result. elim (finalize_incoming-IsSettled hash d) [
        | inl (done, content, hashed, places) ↦
            PlacesBlob-AreSound store blake3 hash content (files d) (files settled) hashed places
              sound
        | inr (inl (done, keeps)) ↦
            KeepsBlobs-AreSound store blake3 (files d) (files settled) keeps sound
        | inr (inr (e, failed, others)) ↦ absurd (ground (arith, result, failed))
      ],
    )
      where
        chunked : Disk
        chunked = (write_incoming_chunk store hash offset total_len bytes d).1

        settled : Disk
        settled = (finalize_incoming store blake3 hash d).1
