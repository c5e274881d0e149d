-- ===== src/Share/Session/Delivery.antt =====
-- A session that succeeds has written each buffer at its stream's place under the destination.
use mathlib.Core.List.{append_assoc, append-nil}
use roam.Prelude.{
  ℕ, ◌≤◌, Bool, true, Option, none, some, List, [], ◌∷◌, ◌++◌, map, get_elem?, ◌≡◌, refl, arith,
  ◌∙◌, ap, sym, inl, inr, Option-cases,
}
use roam.Prelude.Outcomes.{Outcome-cases}
use roam.Share.Name.{RelPath, texts}
use roam.Share.Payload.{StreamRef, ShareOffer, offer, streams, total_len}
use roam.Share.Payload.Streams.{sum_lens, total_len-sum}
use roam.Share.Receive.{
  Incoming, frame, Failure, Result, ok, Buffers, receive_chunks, resolve_under, push_all,
}
use roam.Share.Session.{
  FilePath, Received, max_accept_bytes, inline_texts, write_files, accepted, answer, receive_share,
}

push_all-append : (base parts : List (List ℕ)) → push_all base parts ≡ base ++ parts
push_all-append base [] = sym (append-nil base)
push_all-append base (part ∷ parts) =
    push_all-append (base ++ part ∷ []) parts ∙ append_assoc base (part ∷ []) parts

-- The place of a stream: the components of its path behind the destination.
abbrev pub place : FilePath → List StreamRef → ℕ → FilePath
place dest ss k = elim (get_elem? ss k) [
  | none ↦ dest
  | some meta ↦ dest ++ texts meta.path.components
]

resolve_under-append :
    (path : RelPath) (base : FilePath) → resolve_under path base ≡ base ++ texts path.components
unfolding resolve_under
resolve_under-append path base = push_all-append base (texts path.components)

write_files-place :
    (refuse : FilePath → Option Failure) (dest : FilePath) (ss : List StreamRef) (m : Buffers)
    (paths : List FilePath)
    → (write_files refuse dest ss m).1 ≡ ok paths
    → ((write_files refuse dest ss m).0 ≡ map (λ b. (place dest ss b.0, b.1)) m)
      × (paths ≡ map (λ b. place dest ss b.0) m)
unfolding write_files
write_files-place refuse dest ss [] paths h = (refl, ground arith)
write_files-place refuse dest ss ((stream, bytes) ∷ rest) paths h =
    elim (Option-cases (get_elem? ss stream)) [
      | inl e ↦ absurd (ground (arith, e, h))
      | inr (meta, e) ↦ elim (Option-cases (refuse (resolve_under meta.path dest))) [
        | inr (why, refused) ↦ absurd (ground (arith, e, refused, h))
        | inl free ↦
            let at = resolve_under-append meta.path dest in
            elim (Outcome-cases (write_files refuse dest ss rest).1) [
              | inr (why, failed) ↦ absurd (ground (arith, e, free, failed, h))
              | inl (ps, good) ↦
                  let (written, named) = write_files-place refuse dest ss rest ps good in
                  (
                    ground (arith, e, free, at, written),
                    ground (arith, e, free, good, at, named, h),
                  )
            ]
      ]
    ]

accepted-place :
    (refuse : FilePath → Option Failure) (dest : FilePath) (o : ShareOffer) (ss : List StreamRef)
    (rest : List Incoming) (r : Received)
    → streams o ≡ some ss
    → (accepted refuse dest o rest).result ≡ ok r
    → (m : Buffers) × (receive_chunks ss [] rest ≡ ok m)
      × ((accepted refuse dest o rest).written ≡ map (λ b. (place dest ss b.0, b.1)) m)
      × (r.files ≡ map (λ b. place dest ss b.0) m)
      × (r.texts ≡ inline_texts o.items)
unfolding accepted
accepted-place refuse dest o ss rest r found h = elim (Outcome-cases (receive_chunks ss [] rest)) [
  | inr (why, failed) ↦ absurd (ground (arith, found, failed, h))
  | inl (m, good) ↦ elim (Outcome-cases (write_files refuse dest ss m).1) [
    | inr (why, failed) ↦ absurd (ground (arith, found, good, failed, h))
    | inl (ps, wrote) ↦
        let (written, named) = write_files-place refuse dest ss m ps wrote in
        let built : Result Received = ok (record { files = ps; texts = inline_texts o.items }) in
        let ends : built ≡ ok r = ground (arith, found, good, wrote, h) in
        (
          m,
          good,
          ground (arith, found, good, written),
          ground (arith, ends, named),
          ground (arith, ends),
        )
  ]
]

-- If the human accepts an offer of at most 8 GiB and the session ends well, then the frames that
-- came filled some buffers, each was written, and only these, behind the destination at the path
-- its stream has in the offer, and the paths and the offer's texts are what is returned.
pub receive_share-delivers :
    (decide : ShareOffer → Bool) (refuse : FilePath → Option Failure) (dest : FilePath)
    (o : ShareOffer) (ss : List StreamRef) (rest : List Incoming) (r : Received)
    → decide o ≡ true
    → streams o ≡ some ss
    → sum_lens ss ≤ max_accept_bytes
    → (receive_share decide refuse dest (frame (offer o) ∷ rest)).result ≡ ok r
    → (m : Buffers) × (receive_chunks ss [] rest ≡ ok m)
      × ((receive_share decide refuse dest (frame (offer o) ∷ rest)).written
          ≡ map (λ b. (place dest ss b.0, b.1)) m)
      × (r.files ≡ map (λ b. place dest ss b.0) m)
      × (r.texts ≡ inline_texts o.items)
unfolding receive_share answer
receive_share-delivers decide refuse dest o ss rest r agreed found within h =
    let total : total_len o ≡ some (sum_lens ss) =
      ground (arith, total_len-sum o ss found, within) in
    let same : receive_share decide refuse dest (frame (offer o) ∷ rest)
        ≡ accepted refuse dest o rest =
      ground (arith, total, agreed, within) in
    let (m, good, written, files, texts) =
      accepted-place refuse dest o ss rest r found (sym (ap (λ s. s.result) same) ∙ h) in
    (m, good, ap (λ s. s.written) same ∙ written, files, texts)
