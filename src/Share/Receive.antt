-- ===== src/Share/Receive.antt =====
-- The receiving half of a share: crates/roam-share-iroh/src/receive.rs, after the code is proved.
pub mod Buffers
pub mod Contents
pub mod Bounds
use roam.Prelude.{
  ℕ, zero, suc, Bool, true, false, Option, none, some, List, [], ◌∷◌, ◌++◌, length, get_elem?,
  replicate, ltb, if◌then◌else◌,
}
use roam.Prelude.Maps.{upsert}
use roam.Prelude.Outcomes.{Outcome}
pub use roam.Prelude.Outcomes.{ok, err, ◌>>=◌, ok_or}
use roam.Prelude.Splices.{
  overwrite, splice, byte_at, covers, byte_at-splice, byte_at-replicate, byte_at-beyond,
  length-splice,
}
use roam.Share.Name.{SafeName, RelPath, texts}
use roam.Share.Payload.{
  Payload, file, folder, text_note, clipboard, contact, StreamRef, ShareOffer, ShareFrame, offer,
  accept, decline, chunk, done, kind, streams, total_len, u64_max,
}
use Prim.Native.Nat.{◌+◌}

-- What one read gives: the sender went quiet or the frame does not open; a plaintext that does
-- not decode; or a frame.
pub data Incoming : Type 0 where
  quiet undecodable : Incoming
  frame : ShareFrame → Incoming

-- Why `receive_share_with` ends without a result; `panic` for an `expect` that fails.
pub data Failure : Type 0 where
  no_frame bad_frame panic : Failure
  not_an_offer not_done_after_decline unexpected_frame : (kind : List ℕ) → Failure
  over_limit : (claimed : ℕ) → Failure
  unknown_stream : (stream : ℕ) → Failure
  offset_overflow : Failure
  over_length : (stream sent declared : ℕ) → Failure

abbrev pub Result : Type 0 → Type 0
Result A = Outcome Failure A

-- `BTreeMap<u32, Vec<u8>>`, ascending in the keys.
abbrev pub Buffers : Type 0
Buffers = List (ℕ × List ℕ)

-- `.entry(stream).or_insert_with(|| vec![0u8; meta.len])`
abbrev pub buffer_or_zeros : (len : ℕ) → Option (List ℕ) → List ℕ
buffer_or_zeros len none = replicate len 0
buffer_or_zeros len (some buffer) = buffer

-- One `Chunk` of the receive loop, on a machine whose `usize` has 64 bits.
unfoldable pub write_chunk :
    List StreamRef → (stream offset : ℕ) (bytes : List ℕ) → Buffers → Result Buffers
write_chunk streams stream offset bytes buffers = do
  meta ← ok_or (get_elem? streams stream) (unknown_stream stream)
  if ltb u64_max (offset + length bytes)
      then err offset_overflow
      else if ltb meta.len (offset + length bytes)
      then err (over_length stream (offset + length bytes) meta.len)
      else ok (upsert stream (λ old. splice offset bytes (buffer_or_zeros meta.len old)) buffers)

-- The receive loop: each frame that comes, until `Done`.
unfoldable pub receive_chunks : List StreamRef → Buffers → List Incoming → Result Buffers
receive_chunks streams buffers [] = err no_frame
receive_chunks streams buffers (quiet ∷ rest) = err no_frame
receive_chunks streams buffers (undecodable ∷ rest) = err bad_frame
receive_chunks streams buffers (frame (chunk stream at bytes) ∷ rest) = do
  filled ← write_chunk streams stream at bytes buffers
  receive_chunks streams filled rest
receive_chunks streams buffers (frame done ∷ rest) = ok buffers
receive_chunks streams buffers (frame (offer o) ∷ rest) = err (unexpected_frame (kind (offer o)))
receive_chunks streams buffers (frame (accept ss) ∷ rest) =
    err (unexpected_frame (kind (accept ss)))
receive_chunks streams buffers (frame decline ∷ rest) = err (unexpected_frame (kind decline))

-- `RelPath::resolve_under`: each component pushed onto the directory.
abbrev pub push_all : List (List ℕ) → List (List ℕ) → List (List ℕ)
push_all out [] = out
push_all out (part ∷ parts) = push_all (out ++ part ∷ []) parts

unfoldable pub resolve_under : RelPath → (base : List (List ℕ)) → List (List ℕ)
resolve_under path base = push_all base (texts path.components)
