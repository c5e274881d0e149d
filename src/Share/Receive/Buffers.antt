-- ===== src/Share/Receive/Buffers.antt =====
-- The buffers of the receive loop have the declared sizes and hold what was sent last.
use roam.Prelude.{
  ℕ, ◌≤◌, Option, some, List, [], ◌∷◌, length, get_elem?, length-replicate, ◌==◌, ==→eq, ◌≡◌, arith,
  ◌∙◌, ap, sym, subst, inl, inr, Bool-cases, Option-cases,
}
use roam.Prelude.Maps.{lookup, upsert, IsAscending, lookup-upsert, upsert-IsAscending}
use roam.Prelude.Outcomes.{>>=-eq_ok}
use roam.Prelude.Splices.{splice, length-splice}
use roam.Share.Payload.{StreamRef, offer, accept, decline, chunk, done}
use roam.Share.Receive.{
  Incoming, quiet, undecodable, frame, ok, Buffers, buffer_or_zeros, write_chunk, receive_chunks,
}
use Prim.Native.Nat.{◌+◌}

-- What an accepted chunk does.
pub write_chunk_ok :
    (ss : List StreamRef) (stream offset : ℕ) (bytes : List ℕ) (m : Buffers) {out : Buffers}
    → write_chunk ss stream offset bytes m ≡ ok out
    → (meta : StreamRef) × (get_elem? ss stream ≡ some meta)
      × (offset + length bytes ≤ meta.len)
      × (out ≡ upsert stream (λ old. splice offset bytes (buffer_or_zeros meta.len old)) m)
unfolding write_chunk
write_chunk_ok ss stream offset bytes m {out} h = elim (Option-cases (get_elem? ss stream)) [
  | inl e ↦ absurd (ground (arith, e))
  | inr (meta, e) ↦ (meta, e, ground (arith, e), ground (arith, e))
]

-- Every buffer belongs to a stream of the offer and has the length that the offer declares.
pub HasDeclared : List StreamRef → Buffers → Type 0
HasDeclared ss m =
    (k : ℕ) (buffer : List ℕ)
    → lookup k m ≡ some buffer
    → (meta : StreamRef) × (get_elem? ss k ≡ some meta) × (length buffer ≡ meta.len)

pub HasDeclared-lookup :
    (ss : List StreamRef) (m : Buffers)
    → HasDeclared ss m
    → (k : ℕ) (buffer : List ℕ) → lookup k m ≡ some buffer
    → (meta : StreamRef) × (get_elem? ss k ≡ some meta) × (length buffer ≡ meta.len)
unfolding HasDeclared
HasDeclared-lookup ss m h = h

abbrev pub AreSound : List StreamRef → Buffers → Type 0
AreSound ss m = IsAscending m × HasDeclared ss m

pub length-buffer_or_zeros :
    (ss : List StreamRef) (k : ℕ) (m : Buffers) (meta : StreamRef)
    → HasDeclared ss m
    → get_elem? ss k ≡ some meta
    → length (buffer_or_zeros meta.len (lookup k m)) ≡ meta.len
unfolding HasDeclared
length-buffer_or_zeros ss k m meta declared at_k = elim (Option-cases (lookup k m)) [
  | inl e ↦ rw e (length-replicate meta.len 0)
  | inr (buffer, e) ↦
      let (other, at_other, sized) = declared k buffer e in
      let same : other ≡ meta = ground (arith, at_k, at_other) in
      rw e (sized ∙ ap (λ s. s.len) same)
]

upsert-AreSound :
    (ss : List StreamRef) (stream offset : ℕ) (bytes : List ℕ) (m : Buffers) (meta : StreamRef)
    → get_elem? ss stream ≡ some meta
    → offset + length bytes ≤ meta.len
    → AreSound ss m
    → AreSound ss (upsert stream (λ old. splice offset bytes (buffer_or_zeros meta.len old)) m)
unfolding HasDeclared
upsert-AreSound ss stream offset bytes m meta at_stream fits (ascending, declared) =
    let fill : Option (List ℕ) → List ℕ =
      λ old. splice offset bytes (buffer_or_zeros meta.len old) in
    (
      upsert-IsAscending stream fill m ascending,
      λ k buffer h.
          let found = sym (lookup-upsert stream fill k m ascending) ∙ h in
          elim (Bool-cases (k == stream)) [
            | inl e ↦
                let same = ==→eq k stream e in
                let sized = length-buffer_or_zeros ss stream m meta declared at_stream in
                let filled : buffer ≡ fill (lookup stream m) = ground (arith, found, e) in
                let kept : length (fill (lookup stream m))
                    ≡ length (buffer_or_zeros meta.len (lookup stream m)) =
                  length-splice offset bytes (buffer_or_zeros meta.len (lookup stream m))
                    (omega (arith, fits, sized)) in
                (meta, rw same at_stream, ap length filled ∙ kept ∙ sized)
            | inr e ↦ declared k buffer (ground (arith, found, e))
          ],
    )

pub write_chunk-AreSound :
    (ss : List StreamRef) (stream offset : ℕ) (bytes : List ℕ) (m : Buffers) {out : Buffers}
    → write_chunk ss stream offset bytes m ≡ ok out
    → AreSound ss m
    → AreSound ss out
write_chunk-AreSound ss stream offset bytes m h sound =
    let (meta, at_stream, fits, same) = write_chunk_ok ss stream offset bytes m h in
    subst (AreSound ss) (sym same)
      (upsert-AreSound ss stream offset bytes m meta at_stream fits sound)

receive_chunks-AreSound :
    (ss : List StreamRef) (m : Buffers) (frames : List Incoming) (out : Buffers)
    → AreSound ss m
    → receive_chunks ss m frames ≡ ok out
    → AreSound ss out
unfolding receive_chunks
receive_chunks-AreSound ss m [] out sound h = absurd (ground arith)
receive_chunks-AreSound ss m (quiet ∷ rest) out sound h = absurd (ground arith)
receive_chunks-AreSound ss m (undecodable ∷ rest) out sound h = absurd (ground arith)
receive_chunks-AreSound ss m (frame (chunk stream at bytes) ∷ rest) out sound h =
    let (filled, wrote, after) =
      >>=-eq_ok (write_chunk ss stream at bytes m) (λ m. receive_chunks ss m rest) h in
    receive_chunks-AreSound ss filled rest out
      (write_chunk-AreSound ss stream at bytes m wrote sound) after
receive_chunks-AreSound ss m (frame done ∷ rest) out sound h =
    subst (AreSound ss) (ground arith) sound
receive_chunks-AreSound ss m (frame (offer o) ∷ rest) out sound h = absurd (ground arith)
receive_chunks-AreSound ss m (frame (accept a) ∷ rest) out sound h = absurd (ground arith)
receive_chunks-AreSound ss m (frame decline ∷ rest) out sound h = absurd (ground arith)

pub nil-AreSound : (ss : List StreamRef) → AreSound ss []
unfolding HasDeclared
nil-AreSound ss = (tt, λ k buffer e. absurd (ground arith))

-- Whatever frames come, a transfer that completes leaves one buffer for each stream that had a
-- chunk, each of the length its stream declares.
pub receive_chunks-HasDeclared :
    (ss : List StreamRef) (frames : List Incoming) (out : Buffers)
    → receive_chunks ss [] frames ≡ ok out
    → IsAscending out × HasDeclared ss out
receive_chunks-HasDeclared ss frames out h =
    receive_chunks-AreSound ss [] frames out (nil-AreSound ss) h
