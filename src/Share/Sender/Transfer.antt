-- ===== src/Share/Sender/Transfer.antt =====
-- What the sender sends of a file, the receiver puts together again.
use mathlib.Core.List.{append_assoc}
use roam.Prelude.{
  ℕ, zero, suc, ◌+◌, ◌≤◌, some, List, [], ◌∷◌, ◌++◌, map, length, length-append, get_elem?, take,
  drop, replicate, ==_self, leb, ◌≡◌, ◌≢◌, refl, sym, arith, ◌∙◌, ap, inl, inr, Bool-cases,
}
use roam.Prelude.Outcomes.{ok, ◌>>=◌}
use roam.Prelude.Maps.{upsert}
use roam.Prelude.Splices.{take-short, length-take_long, overwrite, splice}
use roam.Share.Payload.{StreamRef, done, u64_max}
use roam.Share.Receive.{Incoming, frame, Buffers, buffer_or_zeros, write_chunk, receive_chunks}
use roam.Share.Sender.{chunks, chunk_frames}

abbrev sent : (size stream offset fuel : ℕ) (bytes : List ℕ) → List Incoming → List Incoming
sent size stream offset fuel bytes rest =
    map frame (chunk_frames size stream offset (chunks fuel size bytes)) ++ rest

length-take-drop : (n : ℕ) (xs : List ℕ) → length (take n xs) + length (drop n xs) ≡ length xs
length-take-drop zero xs = omega arith
length-take-drop (suc n) [] = omega arith
length-take-drop (suc n) (x ∷ xs) = omega (arith, length-take-drop n xs)

take-append_drop : (n : ℕ) (xs : List ℕ) → take n xs ++ drop n xs ≡ xs
take-append_drop zero xs = refl
take-append_drop (suc n) [] = refl
take-append_drop (suc n) (x ∷ xs) = ap (λ ys. x ∷ ys) (take-append_drop n xs)

length-drop_some : (n x : ℕ) (xs : List ℕ) → 1 ≤ n → length (drop n (x ∷ xs)) ≤ length xs
length-drop_some zero x xs h = absurd (omega (arith, h))
length-drop_some (suc n) x xs h = omega (arith, length-take-drop n xs)

-- A piece that is copied over zeros stands there, before the zeros that are left.
overwrite-zeros :
    (piece : List ℕ) (left : ℕ)
    → overwrite piece (replicate (length piece + left) 0) ≡ piece ++ replicate left 0
overwrite-zeros [] left = ap (λ n. replicate n 0) (omega arith)
overwrite-zeros (b ∷ piece) left =
    let more : suc (length piece) + left ≡ suc (length piece + left) = omega arith in
    ap (λ n. overwrite (b ∷ piece) (replicate n 0)) more
    ∙ ap (λ ys. b ∷ ys) (overwrite-zeros piece left)

splice-after :
    (before piece : List ℕ) (left : ℕ)
    → splice (length before) piece (before ++ replicate (length piece + left) 0)
      ≡ (before ++ piece) ++ replicate left 0
splice-after [] piece left = overwrite-zeros piece left
splice-after (x ∷ before) piece left = ap (λ ys. x ∷ ys) (splice-after before piece left)

-- A chunk that fits goes into the stream's buffer.
write_chunk-fits :
    (ss : List StreamRef) (stream offset : ℕ) (bytes : List ℕ) (m : Buffers) (meta : StreamRef)
    → get_elem? ss stream ≡ some meta
    → offset + length bytes ≤ meta.len
    → meta.len ≤ u64_max
    → write_chunk ss stream offset bytes m
      ≡ ok (upsert stream (λ old. splice offset bytes (buffer_or_zeros meta.len old)) m)
unfolding write_chunk
write_chunk-fits ss stream offset bytes m meta at_stream fits sized =
    ground (arith, at_stream, fits, sized)

-- The rest of a file fills the rest of its buffer, which has zeros there.
receive_chunks-rest :
    (ss : List StreamRef) (size stream offset fuel : ℕ) (before bytes : List ℕ) (meta : StreamRef)
    → 1 ≤ size
    → length bytes ≤ fuel
    → get_elem? ss stream ≡ some meta
    → (bytes ≢ [] → offset ≡ length before)
    → length before + length bytes ≡ meta.len
    → meta.len ≤ u64_max
    → receive_chunks ss
        ((stream, before ++ replicate (length bytes) 0) ∷ [])
        (sent size stream offset fuel bytes (frame done ∷ []))
      ≡ ok ((stream, before ++ bytes) ∷ [])
unfolding chunks chunk_frames receive_chunks
receive_chunks-rest ss size stream offset fuel before [] meta positive enough at_stream here total
      sized =
    refl
receive_chunks-rest ss size stream offset zero before (b ∷ bytes) meta positive enough at_stream
      here total sized =
    absurd (omega (arith, enough))
receive_chunks-rest ss size stream offset (suc fuel) before (b ∷ bytes) meta positive enough
      at_stream here total sized =
    let file = b ∷ bytes in
    let piece = take size file in
    let left = drop size file in
    let parts = length-take-drop size file in
    let at : offset ≡ length before = here (λ e. absurd (ground arith)) in
    let buffer = before ++ replicate (length file) 0 in
    let wrote =
      write_chunk-fits ss stream offset piece ((stream, buffer) ∷ []) meta at_stream
        (omega (arith, parts, at, total)) sized in
    let filled : splice offset piece buffer ≡ (before ++ piece) ++ replicate (length left) 0 =
      ap (λ n. splice n piece buffer) at
      ∙ ap (λ n. splice (length before) piece (before ++ replicate n 0)) (sym parts)
      ∙ splice-after before piece (length left) in
    let stands : upsert stream (λ old. splice offset piece (buffer_or_zeros meta.len old))
          ((stream, buffer) ∷ [])
        ≡ (stream, (before ++ piece) ++ replicate (length left) 0) ∷ [] =
      rw (==_self stream) (ap (λ ys. (stream, ys) ∷ []) filled) in
    let next =
      receive_chunks-rest ss size stream (offset + size) fuel (before ++ piece) left meta positive
        (omega (arith, length-drop_some size b bytes positive, enough)) at_stream
        (next_offset size offset before file at)
        (omega (arith, length-append before piece, parts, total)) sized in
    ap
      (λ r. r >>= λ filled.
        receive_chunks ss filled (sent size stream (offset + size) fuel left (frame done ∷ [])))
      (wrote ∙ ap ok stands)
    ∙ next
    ∙ ap (λ ys. ok ((stream, ys) ∷ []))
        (append_assoc before piece left ∙ ap (λ ys. before ++ ys) (take-append_drop size file))
  where
    next_offset :
        (size offset : ℕ) (before file : List ℕ)
        → offset ≡ length before
        → drop size file ≢ []
        → offset + size ≡ length (before ++ take size file)
    next_offset size offset before file at some_left = elim (Bool-cases (leb (length file) size)) [
      | inl short ↦ absurd (some_left (take-short size file (ground (arith, short))).1)
      | inr long ↦ omega (
        arith,
        (length-take_long size file (ground (arith, long))).0,
        length-append before (take size file),
        at,
      )
    ]

-- The buffers after the transfer of one file: an empty file, of which no chunk is sent, has none.
abbrev pub buffers_of : (stream : ℕ) (bytes : List ℕ) → Buffers
buffers_of stream [] = []
buffers_of stream (b ∷ bytes) = (stream, b ∷ bytes) ∷ []

-- A file that the sender cuts into chunks of any positive size arrives: if it has the 64-bit
-- length that the offer declares for its stream, the receiver accepts its frames up to `Done`, and
-- then has exactly one buffer, the stream's, with exactly the bytes of the file. Only an empty file
-- has no buffer afterwards.
pub receive_chunks-chunks :
    (ss : List StreamRef) (size stream : ℕ) (bytes : List ℕ) (meta : StreamRef)
    → 1 ≤ size
    → get_elem? ss stream ≡ some meta
    → length bytes ≡ meta.len
    → meta.len ≤ u64_max
    → receive_chunks ss [] (
        map frame (chunk_frames size stream 0 (chunks (length bytes) size bytes))
        ++ frame done ∷ [])
      ≡ ok (buffers_of stream bytes)
unfolding chunks chunk_frames receive_chunks
receive_chunks-chunks ss size stream [] meta positive at_stream same sized = refl
receive_chunks-chunks ss size stream (b ∷ bytes) meta positive at_stream same sized =
    let file = b ∷ bytes in
    let piece = take size file in
    let fits : 0 + length piece ≤ meta.len = omega (arith, length-take-drop size file, same) in
    let zeros : List ℕ = replicate (length file) 0 in
    let fresh = write_chunk-fits ss stream 0 piece [] meta at_stream fits sized in
    let known =
      write_chunk-fits ss stream 0 piece ((stream, zeros) ∷ []) meta at_stream fits sized in
    let stands : upsert stream (λ old. splice 0 piece (buffer_or_zeros meta.len old)) []
        ≡ upsert stream (λ old. splice 0 piece (buffer_or_zeros meta.len old))
            ((stream, zeros) ∷ []) =
      rw (==_self stream) (ap (λ n. (stream, splice 0 piece (replicate n 0)) ∷ []) (sym same)) in
    ap
      (λ r. r >>= λ filled.
        receive_chunks ss filled
          (sent size stream (0 + size) (length bytes) (drop size file) (frame done ∷ [])))
      (fresh ∙ ap ok stands ∙ sym known)
    ∙ receive_chunks-rest ss size stream 0 (length file) [] file meta positive (omega arith)
        at_stream (λ _. refl) (omega (arith, same)) sized
