-- ===== src/Share/Receive/Contents.antt =====
-- The buffers of the receive loop hold, at each position, the byte that was sent for it last.
use roam.Prelude.{
  ℕ, ◌&&◌, Option, none, some, List, [], ◌∷◌, ◌==◌, ==→eq, if◌then◌else◌, ◌≡◌, refl, arith, ◌∙◌, ap,
  sym, inl, inr, Bool-cases,
}
use roam.Prelude.Maps.{lookup, lookup-upsert}
use roam.Prelude.Outcomes.{>>=-eq_ok}
use roam.Prelude.Splices.{splice, byte_at, covers, byte_at-splice, byte_at-replicate}
use roam.Share.Payload.{StreamRef, offer, accept, decline, chunk, done}
use roam.Share.Receive.{
  Incoming, quiet, undecodable, frame, ok, Buffers, buffer_or_zeros, write_chunk, receive_chunks,
}
use roam.Share.Receive.Buffers.{
  write_chunk_ok, AreSound, length-buffer_or_zeros, write_chunk-AreSound, nil-AreSound,
}
use Prim.Native.Nat.{◌-◌}

abbrev pub value_in : ℕ → Option (List ℕ) → ℕ
value_in pos none = 0
value_in pos (some buffer) = byte_at pos buffer

-- The byte of a stream's buffer, zero where nothing was written.
abbrev pub value_at : Buffers → (stream pos : ℕ) → ℕ
value_at m stream pos = value_in pos (lookup stream m)

-- What the frames up to `Done` send last for a position of a stream.
abbrev pub last_sent : (stream pos current : ℕ) → List Incoming → ℕ
last_sent stream pos current [] = current
last_sent stream pos current (quiet ∷ rest) = current
last_sent stream pos current (undecodable ∷ rest) = current
last_sent stream pos current (frame (chunk s at bytes) ∷ rest) =
    last_sent stream pos
      (if stream == s && covers at bytes pos then byte_at (pos - at) bytes else current) rest
last_sent stream pos current (frame done ∷ rest) = current
last_sent stream pos current (frame (offer o) ∷ rest) = current
last_sent stream pos current (frame (accept a) ∷ rest) = current
last_sent stream pos current (frame decline ∷ rest) = current

byte_at-buffer_or_zeros :
    (len pos : ℕ) (old : Option (List ℕ)) → byte_at pos (buffer_or_zeros len old) ≡ value_in pos old
byte_at-buffer_or_zeros len pos none = byte_at-replicate len pos
byte_at-buffer_or_zeros len pos (some buffer) = refl

write_chunk-value_at :
    (ss : List StreamRef) (s offset : ℕ) (bytes : List ℕ) (m : Buffers) {out : Buffers}
    (stream pos : ℕ)
    → write_chunk ss s offset bytes m ≡ ok out
    → AreSound ss m
    → value_at out stream pos ≡ (
        if stream == s && covers offset bytes pos
        then byte_at (pos - offset) bytes
        else value_at m stream pos)
write_chunk-value_at ss s offset bytes m {out} stream pos h (ascending, declared) =
    let (meta, at_s, fits, same) = write_chunk_ok ss s offset bytes m h in
    let fill : Option (List ℕ) → List ℕ =
      λ old. splice offset bytes (buffer_or_zeros meta.len old) in
    let found =
      ap (λ m. value_at m stream pos) same
      ∙ ap (value_in pos) (lookup-upsert s fill stream m ascending) in
    let sized = length-buffer_or_zeros ss s m meta declared at_s in
    let written =
      byte_at-splice offset bytes (buffer_or_zeros meta.len (lookup s m)) pos
        (omega (arith, fits, sized)) in
    elim (Bool-cases (stream == s)) [
      | inl e ↦ ground (
        arith,
        found,
        written,
        e,
        byte_at-buffer_or_zeros meta.len pos (lookup s m),
        ap (λ k. lookup k m) (==→eq stream s e),
      )
      | inr e ↦ ground (arith, found, e)
    ]

receive_chunks-value_at :
    (ss : List StreamRef) (m : Buffers) (frames : List Incoming) (out : Buffers) (stream pos : ℕ)
    → AreSound ss m
    → receive_chunks ss m frames ≡ ok out
    → value_at out stream pos ≡ last_sent stream pos (value_at m stream pos) frames
unfolding receive_chunks
receive_chunks-value_at ss m [] out stream pos sound h = absurd (ground arith)
receive_chunks-value_at ss m (quiet ∷ rest) out stream pos sound h = absurd (ground arith)
receive_chunks-value_at ss m (undecodable ∷ rest) out stream pos sound h = absurd (ground arith)
receive_chunks-value_at ss m (frame (chunk s at bytes) ∷ rest) out stream pos sound h =
    let (filled, wrote, after) =
      >>=-eq_ok (write_chunk ss s at bytes m) (λ m. receive_chunks ss m rest) h in
    receive_chunks-value_at ss filled rest out stream pos
      (write_chunk-AreSound ss s at bytes m wrote sound) after
    ∙ ap (λ current. last_sent stream pos current rest)
        (write_chunk-value_at ss s at bytes m stream pos wrote sound)
receive_chunks-value_at ss m (frame done ∷ rest) out stream pos sound h =
    let same : m ≡ out = ground arith in ap (λ m. value_at m stream pos) (sym same)
receive_chunks-value_at ss m (frame (offer o) ∷ rest) out stream pos sound h = absurd (ground arith)
receive_chunks-value_at ss m (frame (accept a) ∷ rest) out stream pos sound h =
    absurd (ground arith)
receive_chunks-value_at ss m (frame decline ∷ rest) out stream pos sound h = absurd (ground arith)

-- Of a transfer that completes, each byte of each buffer is the one that was sent last for its
-- position, in whatever order the chunks came, and zero where none was sent.
pub receive_chunks-last_sent :
    (ss : List StreamRef) (frames : List Incoming) (out : Buffers) (stream pos : ℕ)
    → receive_chunks ss [] frames ≡ ok out
    → value_at out stream pos ≡ last_sent stream pos 0 frames
receive_chunks-last_sent ss frames out stream pos h =
    receive_chunks-value_at ss [] frames out stream pos (nil-AreSound ss) h
