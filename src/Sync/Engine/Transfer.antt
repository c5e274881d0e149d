-- ===== src/Sync/Engine/Transfer.antt =====
-- What one engine serves of a blob, another puts together.
use roam.Prelude.{
  ℕ, zero, suc, ◌+◌, ◌-◌, ◌%◌, ◌≤◌, ◌<◌, true, false, some, List, [], ◌∷◌, map, length, All, ltb,
  ◌==◌, if◌then◌else◌, ◌≡◌, refl, arith, ◌∙◌, ap, sym, inl, inr, Bool-cases,
}
use roam.Prelude.Outcomes.{ok}
use roam.Prelude.Maps.{contains}
use roam.Prelude.Keyed.{find, texts_key}
use roam.Storage.Vfs.{PathBuf}
use roam.Storage.Vfs.Memory.{MemState}
use roam.Storage.Vfs.Memory
use roam.Storage.Blob.{is_valid_hash, final_path, read_range}
use roam.Storage.Blob.Memory.{mem_store}
use roam.Sync.Frame.{blob_chunk}
use roam.Sync.Chunks.{blob_chunk_size, chunk_offset_is_admissible, expected_chunk_len}
use roam.Sync.Chunks.Count.{chunk_of}
use roam.Sync.Engine.{Device, Engine, Effect, send, changed}
use roam.Sync.Engine.Blobs.{serve_from, serve}
use roam.Sync.Engine.Assembly.{in_memory, deliver, IsThere, IsWanted, IsAbsent, deliver-blob}
use roam.Sync.Engine.Pieces.{chunk_bytes, chunk_len}

-- The offsets of the chunks of the rest of a blob.
offsets_from : (fuel offset total_len : ℕ) → List ℕ
offsets_from zero offset total_len = []
offsets_from (suc fuel) offset total_len =
    let rest = offsets_from fuel (offset + expected_chunk_len offset total_len) total_len in
    if ltb offset total_len then offset ∷ rest else []

-- A start of a chunk, or the end.
abbrev IsStart : (offset total_len : ℕ) → Type 0
IsStart offset total_len = offset < total_len → offset % blob_chunk_size ≡ 0

next-IsStart :
    (offset total_len : ℕ)
    → offset < total_len
    → IsStart offset total_len
    → IsStart (offset + expected_chunk_len offset total_len) total_len
      × (offset < offset + expected_chunk_len offset total_len)
      × (offset + expected_chunk_len offset total_len ≤ total_len)
unfolding expected_chunk_len
next-IsStart offset total_len below start = ground arith

offsets_from-admissible :
    (fuel offset total_len : ℕ)
    → IsStart offset total_len
    → All (λ o. chunk_offset_is_admissible o total_len ≡ true) (offsets_from fuel offset total_len)
unfolding offsets_from chunk_offset_is_admissible
offsets_from-admissible zero offset total_len start = tt
offsets_from-admissible (suc fuel) offset total_len start =
    elim (Bool-cases (ltb offset total_len)) [
      | inr end ↦ rw end tt
      | inl more ↦
          let below : offset < total_len = ground (arith, more) in
          let next = next-IsStart offset total_len below start in
          rw more (
            ground (arith, below, start),
            offsets_from-admissible fuel (offset + expected_chunk_len offset total_len) total_len
                next.0,
          )
    ]

-- A position from here on lies in this chunk or in one from the next start on.
offsets_from-come :
    (fuel offset total_len pos : ℕ)
    → IsStart offset total_len
    → total_len - offset ≤ fuel
    → offset ≤ pos
    → pos < total_len
    → contains (chunk_of pos) (offsets_from fuel offset total_len) ≡ true
unfolding offsets_from expected_chunk_len
offsets_from-come zero offset total_len pos start enough from below =
    absurd (omega (arith, enough, from, below))
offsets_from-come (suc fuel) offset total_len pos start enough from below =
    let inside : offset < total_len = omega (arith, from, below) in
    let t : ltb offset total_len ≡ true = ground (arith, inside) in
    let (next_start, grows, bounded) = next-IsStart offset total_len inside start in
    let next = offset + expected_chunk_len offset total_len in
    rw t (elim (Bool-cases (chunk_of pos == offset)) [
      | inl e ↦ rw e refl
      | inr ne ↦ rw ne (
          offsets_from-come fuel next total_len pos next_start (omega (arith, enough, grows))
            (ground (arith, start inside, ne, from, below)) below)
    ])

nonempty : (bytes : List ℕ) → 1 ≤ length bytes → (b : ℕ) × (bs : List ℕ) × (bytes ≡ b ∷ bs)
nonempty [] h = absurd (omega (arith, h))
nonempty (b ∷ bs) h = (b, bs, refl)

module _ {Vault Keychain Version : Type 0} (base : Device Vault Keychain Version MemState)
    (root : PathBuf) (hash blob : List ℕ) where
  abbrev pub chunk_frame : (peer offset : ℕ) → Effect
  chunk_frame peer offset =
      send peer (blob_chunk hash offset (length blob) (chunk_bytes blob offset))

  -- One read of the loop.
  read_range-chunk :
      (offset : ℕ) (disk : MemState)
      → is_valid_hash hash ≡ true
      → find (final_path (mem_store root) hash) disk.files ≡ some blob
      → read_range (mem_store root) hash offset (expected_chunk_len offset (length blob)) disk
        ≡ ok (chunk_bytes blob offset)
  read_range-chunk offset disk valid there = rw (valid, Memory.read_range, there) refl

  chunk_size :
      (offset : ℕ)
      → offset < length blob
      → IsStart offset (length blob)
      → length (chunk_bytes blob offset) ≡ expected_chunk_len offset (length blob)
  unfolding chunk_offset_is_admissible
  chunk_size offset below start =
      (chunk_len blob offset (omega (arith, below)) (ground (arith, below, start below))).1

  -- The loop sends the chunks of its offsets: enough fuel is a unit for each byte that is left.
  serve_from-chunks :
      (fuel peer offset : ℕ) (disk : MemState)
      → is_valid_hash hash ≡ true
      → find (final_path (mem_store root) hash) disk.files ≡ some blob
      → IsStart offset (length blob)
      → serve_from (in_memory base root) fuel peer hash offset (length blob) disk
        ≡ map (chunk_frame peer) (offsets_from fuel offset (length blob))
  unfolding serve_from offsets_from
  serve_from-chunks zero peer offset disk valid there start = refl
  serve_from-chunks (suc fuel) peer offset disk valid there start =
      elim (Bool-cases (ltb offset (length blob))) [
        | inr end ↦ rw (serve_from, end) refl
        | inl more ↦
            let total_len = length blob in
            let below : offset < total_len = ground (arith, more) in
            let (next_start, grows, bounded) = next-IsStart offset total_len below start in
            let size = chunk_size offset below start in
            let (b, bytes, same) =
              nonempty (chunk_bytes blob offset) (omega (arith, size, grows)) in
            let rest : ℕ → List Effect =
              λ next. serve_from (in_memory base root) fuel peer hash next total_len disk in
            rw (serve_from, more, read_range-chunk offset disk valid there ∙ ap ok same)
              (ap
                  (λ bs.
                    send peer (blob_chunk hash offset total_len bs) ∷ rest (offset + length bs))
                  (sym same)
                ∙ ap (λ n. chunk_frame peer offset ∷ rest (offset + n)) size
                ∙ ap (◌∷◌ (chunk_frame peer offset)) (
                    serve_from-chunks fuel peer (offset + expected_chunk_len offset total_len) disk
                      valid there next_start))
      ]

  -- A blob that is not empty, is stored under its valid hash and is not longer than the bound is
  -- served by the loop as chunks at some offsets. An engine in memory that wants the blob and has
  -- nothing of it ends with exactly the blob when it is sent these chunks, and signals once. The
  -- fuel of the loop, one unit for each byte, is enough.
  pub serve-deliver :
      (peer : ℕ) (disk : MemState) (s : Engine Vault MemState)
      → find (final_path (mem_store root) hash) disk.files ≡ some blob
      → IsWanted base root hash blob s
      → IsAbsent base root hash blob s
      → (offsets : List ℕ) × (serve (in_memory base root) peer hash (length blob) disk
          ≡ map (chunk_frame peer) offsets)
        × IsThere base root hash blob (deliver base root hash blob offsets s).0
        × ((deliver base root hash blob offsets s).1 ≡ changed ∷ [])
  serve-deliver peer disk s there wanted absent =
      let total_len = length blob in
      let some_bytes : (total_len == 0) ≡ false = ground (arith, wanted.2) in
      let start : IsStart 0 total_len = λ below. refl in
      let offsets = offsets_from total_len 0 total_len in
      let (arrived, signal) =
        deliver-blob base root hash blob offsets s wanted absent
          (offsets_from-admissible total_len 0 total_len start)
          (λ pos below.
            offsets_from-come total_len 0 total_len pos start (omega arith) (omega arith) below) in
      (
        offsets,
        rw some_bytes (serve_from-chunks total_len peer 0 disk wanted.0 there start),
        arrived,
        signal,
      )
