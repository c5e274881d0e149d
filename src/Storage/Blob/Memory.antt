-- ===== src/Storage/Blob/Memory.antt =====
-- The blob store in memory, where no call fails: chunks of one blob make the blob.
use mathlib.Core.List.{append_assoc}
use roam.Prelude.{
  ℕ, ◌+◌, ◌≤◌, ◌<◌, ◌^◌, Bool, true, false, Option, none, some, List, [], ◌∷◌, ◌++◌, length,
  length-replicate, replicate, ltb, leb, ◌==◌, ◌≡◌, refl, arith, ◌∙◌, ap, sym, inl, inr, Bool-cases,
}
use roam.Prelude.Bytes.{codes}
use roam.Prelude.Outcomes.{ok}
use roam.Prelude.Keyed.{find, put, delete, find-put, same_list, same_list→eq, texts_key, text_key}
use roam.Prelude.Splices.{splice}
use roam.Prelude.Trim.{same_text, same_text_self}
use roam.Storage.Vfs.{PathBuf}
use roam.Storage.Vfs.Memory.{
  MemState, add_dirs, mem_fs, resize_up, write_range, exists, file_len, read, rename,
}
use roam.Storage.Blob.{
  BlobStore, is_valid_hash, has, final_path, part_path, incoming_dir, write_incoming_chunk,
  size_part, write_part, finalize_incoming, move_part, u64_end,
}
use roam.Storage.Blob.Paths.{final_path-part_path, length_of_valid}

tail_of : PathBuf → PathBuf
tail_of [] = []
tail_of (x ∷ xs) = xs

append-cancel : (r xs ys : PathBuf) → r ++ xs ≡ r ++ ys → xs ≡ ys
unfolding tail_of
append-cancel [] xs ys e = e
append-cancel (x ∷ r) xs ys e = append-cancel r xs ys (ap tail_of e)

-- A path that is no prefix of a new directory's path is no new directory.
find-add_dirs :
    (path current rest : PathBuf) (dirs : List (PathBuf × Unit {0}))
    → ((xs ys : PathBuf) → rest ≡ xs ++ ys → same_list path (current ++ xs) ≡ false)
    → find path (add_dirs current rest dirs) ≡ find path dirs
find-add_dirs path current [] dirs apart = refl
find-add_dirs path current (part ∷ rest) dirs apart =
    let here = current ++ part ∷ [] in
    find-add_dirs path here rest (put here tt dirs)
      (λ xs ys e. rw (append_assoc current (part ∷ []) xs) (apart (part ∷ xs) ys (ap (◌∷◌ part) e)))
    ∙ find-put path here tt dirs
    ∙ rw (apart (part ∷ []) rest refl) refl

-- The file that the next chunk is written into.
abbrev pub part_or_zeros : (total_len : ℕ) → Option (List ℕ) → List ℕ
part_or_zeros total_len none = replicate total_len 0
part_or_zeros total_len (some file) = file

abbrev pub IsSized : (total_len : ℕ) → Option (List ℕ) → Type 0
IsSized total_len none = Unit
IsSized total_len (some file) = length file ≡ total_len

module _ (root : PathBuf) where
  abbrev pub mem_store : BlobStore MemState
  mem_store = record { root = root; fs = mem_fs }

  not_prefix :
      (end : PathBuf)
      → ((ys : PathBuf) → codes "incoming" ∷ [] ≡ end ++ ys → Path Bool true false)
      → (xs ys : PathBuf) → incoming_dir mem_store ≡ xs ++ ys
      → same_list (root ++ end) ([] ++ xs) ≡ false
  not_prefix end never xs ys e = elim (Bool-cases (same_list (root ++ end) xs)) [
    | inr n ↦ n
    | inl t ↦
        let same = same_list→eq (root ++ end) xs t in
        absurd (
          ground (
            arith,
            never ys (
                append-cancel root (codes "incoming" ∷ []) (end ++ ys)
                  (e ∙ ap (λ p. p ++ ys) (sym same) ∙ append_assoc root end ys)),
          ))
  ]

  part_path-dirs :
      (hash : List ℕ) (dirs : List (PathBuf × Unit {0}))
      → find (part_path mem_store hash) (add_dirs [] (incoming_dir mem_store) dirs)
        ≡ find (part_path mem_store hash) dirs
  part_path-dirs hash dirs =
      find-add_dirs (part_path mem_store hash) [] (incoming_dir mem_store) dirs (
        not_prefix (codes "incoming" ∷ (hash ++ codes ".part") ∷ [])
          (λ ys e. absurd (omega (arith, ap length e))))

  final_path-dirs :
      (hash : List ℕ) (dirs : List (PathBuf × Unit {0}))
      → is_valid_hash hash ≡ true
      → find (final_path mem_store hash) (add_dirs [] (incoming_dir mem_store) dirs)
        ≡ find (final_path mem_store hash) dirs
  final_path-dirs hash dirs valid =
      find-add_dirs (final_path mem_store hash) [] (incoming_dir mem_store) dirs (
        not_prefix (hash ∷ [])
          (λ ys e. absurd (omega (arith, length_of_valid hash valid, ap head_len e))))
    where
      head_len : PathBuf → ℕ
      head_len [] = 0
      head_len (x ∷ xs) = length x

  -- A disk that holds a partial file of the hash, or none, and that is otherwise like another.
  abbrev pub Holds : (hash : List ℕ) → Option (List ℕ) → MemState → Type 0
  Holds hash part d =
      (find (part_path mem_store hash) d.files ≡ part)
      × (find (part_path mem_store hash) d.dirs ≡ none)
      × (find (final_path mem_store hash) d.files ≡ none)
      × (find (final_path mem_store hash) d.dirs ≡ none)

  write_part-Holds :
      (hash : List ℕ) (offset : ℕ) (bytes file : List ℕ) (d : MemState)
      → Holds hash (some file) d
      → offset + length bytes ≤ length file
      → ((write_part mem_store hash offset bytes d).0 ≡ ok tt)
        × Holds hash (some (splice offset bytes file)) (write_part mem_store hash offset bytes d).1
  write_part-Holds hash offset bytes file d (at_part, dirs, absent, no_dir) fits =
      let part = part_path mem_store hash in
      let same : resize_up (offset + length bytes) file ≡ file = ground (arith, fits) in
      rw (write_part, write_range, at_part, same)
        (
          refl,
          (
            find-put part part (splice offset bytes file) d.files
                ∙ rw (texts_key.same_self part) refl,
            dirs,
            find-put (final_path mem_store hash) part (splice offset bytes file) d.files
                ∙ rw (final_path-part_path mem_store hash hash) absent,
            no_dir,
          ),
        )

  size_part-Holds :
      (hash : List ℕ) (offset total_len : ℕ) (bytes : List ℕ) (part : Option (List ℕ))
      (d : MemState)
      → Holds hash part d
      → IsSized total_len part
      → offset + length bytes ≤ total_len
      → ((size_part mem_store hash offset total_len bytes d).0 ≡ ok tt)
        × Holds hash
            (some (splice offset bytes (part_or_zeros total_len part)))
            (size_part mem_store hash offset total_len bytes d).1
  size_part-Holds hash offset total_len bytes none d (at_part, dirs, absent, no_dir) sized fits =
      let part = part_path mem_store hash in
      let zeros : List ℕ = replicate total_len 0 in
      let d1 = record d { files = put part zeros d.files } in
      rw (size_part, exists, at_part, dirs)
        (write_part-Holds hash offset bytes zeros d1
          (
            find-put part part zeros d.files ∙ rw (texts_key.same_self part) refl,
            dirs,
            find-put (final_path mem_store hash) part zeros d.files
                ∙ rw (final_path-part_path mem_store hash hash) absent,
            no_dir,
          )
          (omega (arith, fits, length-replicate {A = ℕ} total_len 0)))
  size_part-Holds hash offset total_len bytes (some file) d (at_part, dirs, absent, no_dir) sized
        fits =
      let agrees : (length file == total_len) ≡ true = ground (arith, sized) in
      rw (size_part, exists, file_len, at_part, agrees)
        (write_part-Holds hash offset bytes file d (at_part, dirs, absent, no_dir)
          (omega (arith, fits, sized)))

  -- A chunk within the declared length is written into the partial file, which is made if there is
  -- none, and nothing else of the blob changes.
  pub write_incoming_chunk-Holds :
      (hash : List ℕ) (offset total_len : ℕ) (bytes : List ℕ) (part : Option (List ℕ))
      (d : MemState)
      → is_valid_hash hash ≡ true
      → Holds hash part d
      → IsSized total_len part
      → offset + length bytes ≤ total_len
      → total_len < 2 ^ 64
      → ((write_incoming_chunk mem_store hash offset total_len bytes d).0 ≡ ok tt)
        × Holds hash
            (some (splice offset bytes (part_or_zeros total_len part)))
            (write_incoming_chunk mem_store hash offset total_len bytes d).1
  unfolding write_incoming_chunk
  write_incoming_chunk-Holds hash offset total_len bytes part d valid
        (at_part, dirs, absent, no_dir) sized fits small =
      let no_overflow : leb u64_end (offset + length bytes) ≡ false = ground (arith, fits, small) in
      let inside : ltb total_len (offset + length bytes) ≡ false = ground (arith, fits) in
      let d1 = record d { dirs = add_dirs [] (incoming_dir mem_store) d.dirs } in
      rw (valid, no_overflow, inside)
        (size_part-Holds hash offset total_len bytes part d1
          (
            at_part,
            part_path-dirs hash d.dirs ∙ dirs,
            absent,
            final_path-dirs hash d.dirs valid ∙ no_dir,
          )
          sized fits)

  move_part-Holds :
      (hash file : List ℕ) (d : MemState)
      → Holds hash (some file) d
      → ((move_part mem_store hash file d).0 ≡ ok true)
        × (find (final_path mem_store hash) ((move_part mem_store hash file d).1).files ≡ some file)
  move_part-Holds hash file d (at_part, dirs, absent, no_dir) =
      let part = part_path mem_store hash in
      let final = final_path mem_store hash in
      rw (move_part, rename, at_part)
        (
          refl,
          rw (rename, at_part)
              (find-put final final file (delete part d.files)
                ∙ rw (texts_key.same_self final) refl),
        )

  -- A partial file that hashes to its name becomes the blob.
  pub finalize_incoming-Holds :
      (blake3 : List ℕ → List ℕ) (hash file : List ℕ) (d : MemState)
      → is_valid_hash hash ≡ true
      → blake3 file ≡ hash
      → Holds hash (some file) d
      → ((finalize_incoming mem_store blake3 hash d).0 ≡ ok true)
        × (find (final_path mem_store hash) ((finalize_incoming mem_store blake3 hash d).1).files
            ≡ some file)
  unfolding finalize_incoming
  finalize_incoming-Holds blake3 hash file d valid hashed holds =
      let good : same_text (blake3 file) hash ≡ true = rw hashed (same_text_self hash) in
      rw (finalize_incoming, valid, read, holds.0, good) (move_part-Holds hash file d holds)

  pub has-Holds :
      (hash : List ℕ) (part : Option (List ℕ)) (d : MemState)
      → Holds hash part d
      → has mem_store hash d ≡ false
  has-Holds hash part d (at_part, dirs, absent, no_dir) = elim (Bool-cases (is_valid_hash hash)) [
    | inl valid ↦ rw (valid, exists, absent, no_dir) refl
    | inr n ↦ rw n refl
  ]

  pub has_of_file :
      (hash bytes : List ℕ) (d : MemState)
      → is_valid_hash hash ≡ true
      → find (final_path mem_store hash) d.files ≡ some bytes
      → has mem_store hash d ≡ true
  has_of_file hash bytes d valid there = rw (valid, exists, there) refl
