-- ===== src/Share/Session.antt =====
-- A whole receiving session after the code is proved, `receive_share_with` of
-- crates/roam-share-iroh/src/receive.rs: what it answers, what it writes and how it ends.
pub mod Consent
pub mod Delivery
use roam.Prelude.{
  ℕ, zero, suc, Bool, true, false, Option, none, some, List, [], ◌∷◌, ◌++◌, length, get_elem?, ltb,
  if◌then◌else◌,
}
use roam.Share.Payload.{
  Payload, file, folder, text_note, clipboard, contact, StreamRef, ShareOffer, ShareFrame, offer,
  accept, decline, chunk, done, kind, streams, total_len,
}
use roam.Share.Receive.{
  Incoming, quiet, undecodable, frame, Failure, no_frame, bad_frame, panic, not_an_offer,
  not_done_after_decline, over_limit, Result, ok, err, Buffers, receive_chunks, resolve_under,
}
use Prim.Native.Nat.{◌%◌, ◌^◌}

-- `DEFAULT_MAX_ACCEPT_BYTES`
abbrev pub max_accept_bytes : ℕ
max_accept_bytes = 8589934592

-- A path as the words of its directories and of its file.
abbrev pub FilePath : Type 0
FilePath = List (List ℕ)

pub record Received : Type 0 where
  pub files : List FilePath
  pub texts : List (List ℕ)

-- The frames that were sent, the files that were written, and the result.
pub record Session : Type 0 where
  pub sent : List ShareFrame
  pub written : List (FilePath × List ℕ)
  pub result : Result Received

abbrev pub stop : List ShareFrame → Failure → Session
stop sent e = record { sent = sent; written = []; result = err e }

-- `(0..len).collect()`
abbrev pub range_from : ℕ → ℕ → List ℕ
range_from start zero = []
range_from start (suc n) = start ∷ range_from (suc start) n

-- `(0..streams.len() as u32).collect()`
abbrev pub wanted : List StreamRef → List ℕ
wanted ss = range_from 0 (length ss % 2 ^ 32)

-- The texts that come inside the offer.
abbrev pub inline_texts : List Payload → List (List ℕ)
inline_texts [] = []
inline_texts (text_note t ∷ ps) = t ∷ inline_texts ps
inline_texts (clipboard t ∷ ps) = t ∷ inline_texts ps
inline_texts (file m ∷ ps) = inline_texts ps
inline_texts (folder n fs ∷ ps) = inline_texts ps
inline_texts (contact c ∷ ps) = inline_texts ps

-- The loop that writes one file for each buffer. The file system is a parameter: nothing if it
-- creates the directories and takes the file, else why it does not.
unfoldable pub write_files :
    (refuse : FilePath → Option Failure) (dest : FilePath)
    → List StreamRef
    → Buffers
    → List (FilePath × List ℕ) × Result (List FilePath)
write_files refuse dest ss [] = ([], ok [])
write_files refuse dest ss ((stream, bytes) ∷ rest) = elim (get_elem? ss stream) [
  | none ↦ ([], err panic)
  | some meta ↦ elim (refuse (resolve_under meta.path dest)) [
    | some e ↦ ([], err e)
    | none ↦
        let (written, result) = write_files refuse dest ss rest in
        (
          (resolve_under meta.path dest, bytes) ∷ written,
          elim result [ ok paths ↦ ok (resolve_under meta.path dest ∷ paths) | err e ↦ err e ],
        )
  ]
]

abbrev pub received : ShareOffer → Result (List FilePath) → Result Received
received o (ok paths) = ok (record { files = paths; texts = inline_texts o.items })
received o (err e) = err e

abbrev pub finish :
    (refuse : FilePath → Option Failure) (dest : FilePath)
    → ShareOffer
    → List StreamRef
    → Result Buffers
    → Session
finish refuse dest o ss (err e) = stop (accept (wanted ss) ∷ []) e
finish refuse dest o ss (ok buffers) =
    let (written, result) = write_files refuse dest ss buffers in
    record { sent = accept (wanted ss) ∷ []; written = written; result = received o result }

-- After the human accepted.
unfoldable pub accepted :
    (refuse : FilePath → Option Failure) (dest : FilePath) → ShareOffer → List Incoming → Session
accepted refuse dest o incoming = elim (streams o) [
  | none ↦ stop [] panic
  | some ss ↦ finish refuse dest o ss (receive_chunks ss [] incoming)
]

-- After the human declined: the sender's `Done` is awaited.
unfoldable pub declined : List Incoming → Session
declined [] = stop (decline ∷ []) no_frame
declined (quiet ∷ rest) = stop (decline ∷ []) no_frame
declined (undecodable ∷ rest) = stop (decline ∷ []) bad_frame
declined (frame done ∷ rest) = record {
  sent = decline ∷ [];
  written = [];
  result = ok (record { files = []; texts = [] });
}
declined (frame (offer o) ∷ rest) = stop (decline ∷ []) (not_done_after_decline (kind (offer o)))
declined (frame (accept ss) ∷ rest) =
    stop (decline ∷ []) (not_done_after_decline (kind (accept ss)))
declined (frame decline ∷ rest) = stop (decline ∷ []) (not_done_after_decline (kind decline))
declined (frame (chunk s o b) ∷ rest) =
    stop (decline ∷ []) (not_done_after_decline (kind (chunk s o b)))

-- The offer is in.
unfoldable pub answer :
    (decide : ShareOffer → Bool) (refuse : FilePath → Option Failure) (dest : FilePath)
    → ShareOffer
    → List Incoming
    → Session
answer decide refuse dest o incoming = elim (total_len o) [
  | none ↦ stop [] panic
  | some claimed ↦
      if ltb max_accept_bytes claimed
      then stop (decline ∷ []) (over_limit claimed)
      else if decide o
      then accepted refuse dest o incoming
      else declined incoming
]

-- `receive_share_with`, from the first sealed frame on.
unfoldable pub receive_share :
    (decide : ShareOffer → Bool) (refuse : FilePath → Option Failure) (dest : FilePath)
    → List Incoming
    → Session
receive_share decide refuse dest [] = stop [] no_frame
receive_share decide refuse dest (quiet ∷ rest) = stop [] no_frame
receive_share decide refuse dest (undecodable ∷ rest) = stop [] bad_frame
receive_share decide refuse dest (frame (offer o) ∷ rest) = answer decide refuse dest o rest
receive_share decide refuse dest (frame (accept ss) ∷ rest) =
    stop [] (not_an_offer (kind (accept ss)))
receive_share decide refuse dest (frame decline ∷ rest) = stop [] (not_an_offer (kind decline))
receive_share decide refuse dest (frame (chunk s o b) ∷ rest) =
    stop [] (not_an_offer (kind (chunk s o b)))
receive_share decide refuse dest (frame done ∷ rest) = stop [] (not_an_offer (kind done))
