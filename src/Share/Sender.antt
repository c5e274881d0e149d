-- ===== src/Share/Sender.antt =====
-- The sending half of a share after the code is proved, `serve_connection` of
-- crates/roam-share-iroh/src/send.rs, and the sender's loop over connections.
pub mod Transfer
use roam.Prelude.{
  ℕ, zero, suc, Bool, true, false, Option, none, some, List, [], ◌∷◌, ◌++◌, length, get_elem?, take,
  drop,
}
use roam.Prelude.Outcomes.{Outcome, ok, err, ◌>>=◌, ok_or}
use roam.Share.Name.{RelPath}
use roam.Share.Payload.{
  StreamRef, ShareOffer, ShareFrame, offer, accept, decline, chunk, done, kind, streams,
}
use roam.Share.Receive.{Incoming, quiet, undecodable, frame}
use Prim.Native.Nat.{◌+◌, ◌-◌}

-- `CHUNK_BYTES`
abbrev pub chunk_bytes : ℕ
chunk_bytes = 65536

-- `bytes.chunks(size)`: pieces of the size, the last one of what is left. Each piece but the last
-- takes `size` bytes, so the length of the text is enough fuel for a positive size.
unfoldable pub chunks : (fuel size : ℕ) → List ℕ → List (List ℕ)
chunks fuel size [] = []
chunks zero size (b ∷ bytes) = []
chunks (suc fuel) size (b ∷ bytes) =
    let rest = chunks fuel size (drop size (b ∷ bytes)) in take size (b ∷ bytes) ∷ rest

-- The frames of one stream from a piece on that begins at the offset.
unfoldable pub chunk_frames : (size stream offset : ℕ) → List (List ℕ) → List ShareFrame
chunk_frames size stream offset [] = []
chunk_frames size stream offset (piece ∷ pieces) =
    chunk stream offset piece ∷ chunk_frames size stream (offset + size) pieces

-- Whose fault an end is: `LocalFailure` is the sender's own, and `expect` panics.
pub data Fault : Type 0 where
  local_failure peer_failure panic : Fault

-- The loop over the accepted streams. `read` gives the bytes of the file that backs a path.
unfoldable pub send_streams :
    (size : ℕ) (read : RelPath → Option (List ℕ))
    → List StreamRef
    → (accepted : List ℕ) → Outcome Fault (List ShareFrame)
send_streams size read ss [] = ok []
send_streams size read ss (index ∷ accepted) = do
  stream ← ok_or (get_elem? ss index) peer_failure
  bytes ← ok_or (read stream.path) local_failure
  rest ← send_streams size read ss accepted
  ok (chunk_frames size index 0 (chunks (length bytes) size bytes) ++ rest)

-- The end of a connection: nothing is to be sent any more, the frames, or an offer that panics.
unfoldable pub answer_reply :
    (size : ℕ) (read : RelPath → Option (List ℕ))
    → ShareOffer
    → Incoming
    → Outcome Fault (List ShareFrame)
answer_reply size read o quiet = err peer_failure
answer_reply size read o undecodable = err peer_failure
answer_reply size read o (frame (accept indices)) = do
  ss ← ok_or (streams o) panic
  frames ← send_streams size read ss indices
  ok (frames ++ done ∷ [])
answer_reply size read o (frame decline) = ok (done ∷ [])
answer_reply size read o (frame (offer p)) = err peer_failure
answer_reply size read o (frame (chunk s at b)) = err peer_failure
answer_reply size read o (frame done) = err peer_failure

-- What one connection comes to: it is not established, or it is served, with an attempt spent or
-- not.
pub data Connection : Type 0 where
  not_established : Connection
  served : (attempt_spent : Bool) (result : Outcome Fault (List ShareFrame)) → Connection

pub data Ended : Type 0 where
  used_up endpoint_closed own_fault panicked : Ended

abbrev after_attempt : Bool → ℕ → ℕ
after_attempt true left = left - 1
after_attempt false left = left

-- `serve_one`: connections one at a time, while attempts are left, until one is served. The peer's
-- faults drop its connection only.
unfoldable pub serve_one : (attempts_left : ℕ) → List Connection → Outcome Ended (List ShareFrame)
serve_one zero incoming = err used_up
serve_one (suc left) [] = err endpoint_closed
serve_one (suc left) (not_established ∷ rest) = serve_one (suc left) rest
serve_one (suc left) (served spent (ok frames) ∷ rest) = ok frames
serve_one (suc left) (served spent (err local_failure) ∷ rest) = err own_fault
serve_one (suc left) (served spent (err panic) ∷ rest) = err panicked
serve_one (suc left) (served spent (err peer_failure) ∷ rest) =
    serve_one (after_attempt spent (suc left)) rest
