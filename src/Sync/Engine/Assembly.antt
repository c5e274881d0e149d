-- ===== src/Sync/Engine/Assembly.antt =====
-- The receiver of a blob's chunks ends with the blob, in whatever order they come.
use roam.Prelude.{
  ℕ, ◌≤◌, ◌<◌, true, false, ◌||◌, Option, none, some, List, [], ◌∷◌, ◌++◌, length, length-replicate,
  All, ltb, ◌≡◌, refl, arith, ◌∙◌, ap, inl, inr, Bool-cases, ◌⊎◌,
}
use roam.Prelude.Maps.{contains}
use roam.Prelude.Keyed.{find, put, delete, find-put, texts_key, text_key}
use roam.Prelude.Splices.{splice, byte_at, length-splice, bytes_ext}
use roam.Prelude.Trim.{same_text_self}
use roam.Storage.Vfs.{PathBuf}
use roam.Storage.Vfs.Memory.{MemState}
use roam.Storage.Blob.{is_valid_hash, final_path, write_incoming_chunk}
use roam.Storage.Blob.Memory.{
  mem_store, Holds, part_or_zeros, IsSized, write_incoming_chunk-Holds, finalize_incoming-Holds,
  has-Holds, has_of_file,
}
use roam.Sync.Chunks.{
  max_incoming_blob_bytes, IncomingBlob, chunk_offset_is_admissible, chunk_is_admissible,
  entry_or_new, count_chunk, is_complete,
}
use roam.Sync.Chunks.Count.{
  chunk_of, IsCounted, entry_or_new-IsCounted, count_chunk-IsCounted, count_chunk-total_len,
  count_chunk-seen, seen_of_complete, complete_of_seen,
}
use roam.Sync.Engine.{Device, Engine, changed, Step, fileset_wants}
use roam.Sync.Engine.Blobs.{settle, chunk_written, on_blob_chunk}
use roam.Sync.Engine.Pieces.{byte_at-chunk, chunk-admissible, chunk_bytes, chunk_len}

abbrev pub in_memory :
    {Vault Keychain Version : Type 0}
    → Device Vault Keychain Version MemState
    → PathBuf
    → Device Vault Keychain Version MemState
in_memory base root = record base { blobs = mem_store root }

module _ {Vault Keychain Version : Type 0} (base : Device Vault Keychain Version MemState)
    (root : PathBuf) (hash blob : List ℕ) where
  abbrev device : Device Vault Keychain Version MemState
  device = in_memory base root

  -- The chunks with these offsets come in, one after the other.
  abbrev pub deliver : List ℕ → Engine Vault MemState → Step Vault MemState
  deliver [] s = (s, [])
  deliver (offset ∷ offsets) s =
      let first = on_blob_chunk device hash offset (length blob) (chunk_bytes blob offset) s in
      let rest = deliver offsets first.0 in (rest.0, first.1 ++ rest.1)

  -- The blob is there.
  abbrev pub IsThere : Engine Vault MemState → Type 0
  IsThere s = find (final_path (mem_store root) hash) (s.disk).files ≡ some blob

  -- What is known of a blob to come: its name is its hash, and the file-set map wants it.
  abbrev pub IsWanted : Engine Vault MemState → Type 0
  IsWanted s =
      (is_valid_hash hash ≡ true)
      × (base.blake3 blob ≡ hash)
      × (0 < length blob)
      × (length blob ≤ max_incoming_blob_bytes)
      × (fileset_wants device hash s.vault ≡ true)

  -- The blob is on its way: every chunk that was seen has been written, and some are missing.
  abbrev Comes : IncomingBlob → Engine Vault MemState → Type 0
  Comes entry s =
      (part : Option (List ℕ)) × Holds root hash part s.disk
      × IsSized (length blob) part
      × (entry.total_len ≡ length blob)
      × IsCounted entry
      × (is_complete entry ≡ false)
      × (entry_or_new (length blob) (find hash s.incoming_blobs) ≡ entry)
      × ((pos : ℕ)
          → pos < length blob
          → contains (chunk_of pos) entry.seen ≡ true
          → byte_at pos (part_or_zeros (length blob) part) ≡ byte_at pos blob)

  -- After a chunk the blob is there, with a signal, or it is still on its way.
  abbrev Advances : IncomingBlob → Vault → Step Vault MemState → Type 0
  Advances entry vault step =
      (IsThere step.0 × (step.1 ≡ changed ∷ []))
      ⊎ (Comes entry step.0 × ((step.0).vault ≡ vault) × (step.1 ≡ []))

  chunk_written-Advances :
      (offset : ℕ) (s : Engine Vault MemState) (entry : IncomingBlob) (file : List ℕ)
      → IsWanted s
      → Holds root hash (some file) s.disk
      → length file ≡ length blob
      → count_chunk offset
          (length blob)
          (length (chunk_bytes blob offset))
          (entry_or_new (length blob) (find hash s.incoming_blobs))
        ≡ entry
      → entry.total_len ≡ length blob
      → IsCounted entry
      → ((pos : ℕ)
          → pos < length blob
          → contains (chunk_of pos) entry.seen ≡ true
          → byte_at pos file ≡ byte_at pos blob)
      → Advances entry s.vault
          (chunk_written device hash offset (length blob) (length (chunk_bytes blob offset)) s)
  chunk_written-Advances offset s entry file wanted holds sized counts total counted written =
      elim (Bool-cases (is_complete entry)) [
        | inl full ↦
            let whole : file ≡ blob = bytes_ext file blob sized (λ pos lt.
              written pos lt
                (seen_of_complete entry counted full pos (omega (arith, lt, total)))) in
            let hashed : base.blake3 file ≡ hash = ap base.blake3 whole ∙ wanted.1 in
            let s1 = record s { incoming_blobs = delete hash s.incoming_blobs } in
            let (placed, there) =
              finalize_incoming-Holds root base.blake3 hash file s.disk wanted.0 hashed holds in
            rw (chunk_written, counts, full, settle, has-Holds root hash (some file) s.disk holds)
              (inl (there ∙ ap some whole, rw placed refl))
        | inr more ↦
            let stored : find hash (put hash entry s.incoming_blobs) ≡ some entry =
              find-put hash hash entry s.incoming_blobs ∙ rw (same_text_self hash) refl in
            rw (chunk_written, counts, more)
              (inr (
                (
                  some file,
                  holds,
                  sized,
                  total,
                  counted,
                  refl,
                  ap (entry_or_new (length blob)) stored,
                  written,
                ),
                refl,
                refl,
              ))
      ]

  on_blob_chunk-Advances :
      (offset : ℕ) (s : Engine Vault MemState) (entry : IncomingBlob)
      → IsWanted s
      → chunk_offset_is_admissible offset (length blob) ≡ true
      → Comes entry s
      → Advances
          (count_chunk offset (length blob) (length (chunk_bytes blob offset)) entry)
          s.vault
          (on_blob_chunk device hash offset (length blob) (chunk_bytes blob offset) s)
  unfolding on_blob_chunk
  on_blob_chunk-Advances offset s entry wanted fine
        (part, holds, sized, total, counted, incomplete, known, written) =
      let (valid, hashed, some_bytes, bounded, wants) = wanted in
      let bytes = chunk_bytes blob offset in
      let file = part_or_zeros (length blob) part in
      let (fits, len) = chunk_len blob offset some_bytes fine in
      let admissible = chunk-admissible blob offset some_bytes fine in
      let small : ltb max_incoming_blob_bytes (length blob) ≡ false = ground (arith, bounded) in
      let (done, held) =
        write_incoming_chunk-Holds root hash offset (length blob) bytes part s.disk valid holds
          sized fits (omega (arith, bounded)) in
      let after = write_incoming_chunk (mem_store root) hash offset (length blob) bytes s.disk in
      let s1 = record s { disk = after.1 } in
      let next = count_chunk offset (length blob) (length bytes) entry in
      let same : length file ≡ length blob = part-length (length blob) part sized in
      rw (small, admissible, has-Holds root hash part s.disk holds, wants, done)
        (chunk_written-Advances offset s1 next (splice offset bytes file) wanted held
          (length-splice offset bytes file (omega (arith, fits, same)) ∙ same)
          (ap (count_chunk offset (length blob) (length bytes)) known)
          (count_chunk-total_len offset (length blob) (length bytes) entry ∙ total)
          (count_chunk-IsCounted offset (length blob) (length bytes) entry admissible counted)
          (λ pos lt seen. byte_at-chunk blob file offset pos some_bytes fine same lt (λ other.
            written pos lt (
              ground (
                arith,
                other,
                seen,
                count_chunk-seen offset (length blob) (length bytes) (chunk_of pos) entry total,
              )))))
    where
      part-length :
          (n : ℕ) (part : Option (List ℕ)) → IsSized n part → length (part_or_zeros n part) ≡ n
      part-length n none h = length-replicate {A = ℕ} n 0
      part-length n (some file) h = h

  on_blob_chunk-IsThere :
      (offset : ℕ) (s : Engine Vault MemState)
      → is_valid_hash hash ≡ true
      → IsThere s
      → on_blob_chunk device hash offset (length blob) (chunk_bytes blob offset) s ≡ (s, [])
  unfolding on_blob_chunk
  on_blob_chunk-IsThere offset s valid there =
      elim (Bool-cases (ltb max_incoming_blob_bytes (length blob))) [
        | inl big ↦ rw big refl
        | inr small ↦
            elim (Bool-cases
              (chunk_is_admissible offset (length blob) (length (chunk_bytes blob offset)))) [
                | inr bad ↦ rw (small, bad) refl
                | inl good ↦ rw (small, good, has_of_file root hash blob s.disk valid there) refl
              ]
      ]

  -- Once the blob is there, further chunks of it do nothing.
  deliver-IsThere :
      (offsets : List ℕ) (s : Engine Vault MemState)
      → is_valid_hash hash ≡ true
      → IsThere s
      → IsThere (deliver offsets s).0 × ((deliver offsets s).1 ≡ [])
  deliver-IsThere [] s valid there = (there, refl)
  deliver-IsThere (offset ∷ offsets) s valid there =
      let same = on_blob_chunk-IsThere offset s valid there in
      rw same (deliver-IsThere offsets s valid there)

  -- Either the blob is there, with one signal, or all these chunks have been seen.
  abbrev Ends : (offsets : List ℕ) → IncomingBlob → Step Vault MemState → Type 0
  Ends offsets entry step =
      (IsThere step.0 × (step.1 ≡ changed ∷ []))
      ⊎ ((last : IncomingBlob) × Comes last step.0
          × ((x : ℕ)
              → (contains x offsets || contains x entry.seen) ≡ true
              → contains x last.seen ≡ true))

  deliver-Ends :
      (offsets : List ℕ) (s : Engine Vault MemState) (entry : IncomingBlob)
      → IsWanted s
      → All (λ offset. chunk_offset_is_admissible offset (length blob) ≡ true) offsets
      → Comes entry s
      → Ends offsets entry (deliver offsets s)
  deliver-Ends [] s entry wanted fine comes = inr (entry, comes, λ x seen. seen)
  deliver-Ends (offset ∷ offsets) s entry wanted fine comes =
      let bytes = chunk_bytes blob offset in
      let first = on_blob_chunk device hash offset (length blob) bytes s in
      let next = count_chunk offset (length blob) (length bytes) entry in
      elim (on_blob_chunk-Advances offset s entry wanted fine.0 comes) [
        | inl (there, signal) ↦
            let (still, silent) = deliver-IsThere offsets first.0 wanted.0 there in
            inl
              (still, ap (λ es. es ++ (deliver offsets first.0).1) signal ∙ ap (◌∷◌ changed) silent)
        | inr (comes', vault, silent) ↦
            let wanted' : IsWanted first.0 = (
              wanted.0,
              wanted.1,
              wanted.2,
              wanted.3,
              ap (fileset_wants device hash) vault ∙ wanted.4,
            ) in
            elim (deliver-Ends offsets first.0 next wanted' fine.1 comes') [
              | inl (there, signal) ↦
                  inl (there, ap (λ es. es ++ (deliver offsets first.0).1) silent ∙ signal)
              | inr (last, on_way, seen) ↦ inr (
                last,
                on_way,
                λ x h. seen x (
                    ground (
                      arith,
                      h,
                      count_chunk-seen offset (length blob) (length bytes) x entry comes.3,
                    )),
              )
            ]
      ]

  -- Nothing of the blob is stored or on its way.
  abbrev pub IsAbsent : Engine Vault MemState → Type 0
  IsAbsent s = Holds root hash none s.disk × (find hash s.incoming_blobs ≡ none)

  -- A blob that the file-set map wants, of which nothing is stored yet, is put together from its
  -- chunks: when chunks with admissible offsets come in any order and with any repetitions, and the
  -- chunk of each position is among them, the store in memory ends with exactly the blob under its
  -- hash, and the change is signalled exactly once. The conditions are that the blob hashes to that
  -- valid name, is not empty, and is not longer than the bound on blobs that come in.
  pub deliver-blob :
      (offsets : List ℕ) (s : Engine Vault MemState)
      → IsWanted s
      → IsAbsent s
      → All (λ offset. chunk_offset_is_admissible offset (length blob) ≡ true) offsets
      → ((pos : ℕ) → pos < length blob → contains (chunk_of pos) offsets ≡ true)
      → IsThere (deliver offsets s).0 × ((deliver offsets s).1 ≡ changed ∷ [])
  deliver-blob offsets s wanted (holds, unknown) fine come =
      let start = entry_or_new (length blob) none in
      let incomplete : is_complete start ≡ false = ground (arith, wanted.2) in
      let comes : Comes start s = (
        none,
        holds,
        tt,
        refl,
        entry_or_new-IsCounted (length blob),
        incomplete,
        ap (entry_or_new (length blob)) unknown,
        λ pos lt seen. absurd (ground (arith, seen)),
      ) in
      elim (deliver-Ends offsets s start wanted fine comes) [
        | inl done ↦ done
        | inr (last, (part, held, sized, total, counted, more, known, written), seen) ↦
            let full = complete_of_seen last counted (λ pos lt.
              seen (chunk_of pos) (ground (arith, come pos (omega (arith, lt, total))))) in
            absurd (ground (arith, full, more))
      ]
