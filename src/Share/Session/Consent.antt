-- ===== src/Share/Session/Consent.antt =====
-- A receiving session writes nothing without the human's consent, and never more than the limit.
use roam.Prelude.{
  ℕ, ◌≤◌, Bool, true, false, Option, none, some, List, [], ◌∷◌, length, get_elem?, ltb, ◌≡◌, refl,
  arith, ◌∙◌, ap, sym, subst, inl, inr, Bool-cases, Option-cases, any, ◌⊎◌,
}
use roam.Share.Payload.{
  StreamRef, ShareOffer, ShareFrame, offer, accept, decline, chunk, done, streams, total_len,
}
use roam.Share.Payload.Streams.{sum_lens, total_len-sum, streams_of_total}
use roam.Share.Receive.{
  Incoming, quiet, undecodable, frame, Failure, panic, Result, ok, err, Buffers, receive_chunks,
  resolve_under,
}
use roam.Share.Receive.Bounds.{buffered, receive_chunks-buffered}
use roam.Share.Session.{
  FilePath, Session, max_accept_bytes, write_files, accepted, declined, answer, receive_share,
  finish, stop, wanted,
}
use Prim.Native.Nat.{◌+◌}

-- The bytes of all files that are written.
abbrev pub written_len : List (FilePath × List ℕ) → ℕ
written_len [] = 0
written_len ((path, bytes) ∷ ws) = length bytes + written_len ws

write_files-buffered :
    (refuse : FilePath → Option Failure) (dest : FilePath) (ss : List StreamRef) (m : Buffers)
    → written_len ((write_files refuse dest ss m).0) ≤ buffered m
unfolding write_files
write_files-buffered refuse dest ss [] = omega arith
write_files-buffered refuse dest ss ((stream, bytes) ∷ rest) =
    elim (Option-cases (get_elem? ss stream)) [
      | inl e ↦ ground (arith, e)
      | inr (meta, e) ↦ elim (Option-cases (refuse (resolve_under meta.path dest))) [
        | inl free ↦ ground (arith, e, free, write_files-buffered refuse dest ss rest)
        | inr (why, refused) ↦ ground (arith, e, refused)
      ]
    ]

abbrev is_accept : ShareFrame → Bool
is_accept (accept ss) = true
is_accept (offer o) = false
is_accept decline = false
is_accept (chunk s o b) = false
is_accept done = false

-- What consent means: an offer came first, it claims no more than the limit, and the human said yes.
abbrev pub IsConsented : (decide : ShareOffer → Bool) → List Incoming → Session → Type 0
IsConsented decide incoming session =
    (o : ShareOffer) × (rest : List Incoming) × (ss : List StreamRef) × (incoming
      ≡ frame (offer o) ∷ rest)
    × (decide o ≡ true)
    × (streams o ≡ some ss)
    × (sum_lens ss ≤ max_accept_bytes)
    × (session.sent ≡ accept (wanted ss) ∷ [])
    × (written_len session.written ≤ sum_lens ss)

-- Without it nothing was written and no stream was asked for.
abbrev pub IsRefused : Session → Type 0
IsRefused session = (session.written ≡ []) × (any is_accept session.sent ≡ false)

declined-IsRefused : (incoming : List Incoming) → IsRefused (declined incoming)
unfolding declined
declined-IsRefused [] = (refl, refl)
declined-IsRefused (quiet ∷ rest) = (refl, refl)
declined-IsRefused (undecodable ∷ rest) = (refl, refl)
declined-IsRefused (frame (offer o) ∷ rest) = (refl, refl)
declined-IsRefused (frame (accept ss) ∷ rest) = (refl, refl)
declined-IsRefused (frame decline ∷ rest) = (refl, refl)
declined-IsRefused (frame (chunk s o b) ∷ rest) = (refl, refl)
declined-IsRefused (frame done ∷ rest) = (refl, refl)

accepted-within :
    (refuse : FilePath → Option Failure) (dest : FilePath) (o : ShareOffer) (ss : List StreamRef)
    (incoming : List Incoming)
    → streams o ≡ some ss
    → ((accepted refuse dest o incoming).sent ≡ accept (wanted ss) ∷ [])
      × (written_len (accepted refuse dest o incoming).written ≤ sum_lens ss)
unfolding accepted
accepted-within refuse dest o ss incoming found =
    subst (λ s. (s.sent ≡ accept (wanted ss) ∷ []) × (written_len s.written ≤ sum_lens ss))
      (sym (
        ap
          (λ r. elim r as (λ x. Session) [
            | none ↦ stop [] panic
            | some ss ↦ finish refuse dest o ss (receive_chunks ss [] incoming)
          ])
          found))
      (finished (receive_chunks ss [] incoming) (receive_chunks-buffered ss incoming))
  where
    finished :
        (r : Result Buffers)
        → ((m : Buffers) → r ≡ ok m → buffered m ≤ sum_lens ss)
        → ((finish refuse dest o ss r).sent ≡ accept (wanted ss) ∷ [])
          × (written_len (finish refuse dest o ss r).written ≤ sum_lens ss)
    finished (err e) bound = (refl, omega arith)
    finished (ok m) bound =
        (refl, omega (arith, write_files-buffered refuse dest ss m, bound m refl))

answer-consent :
    (decide : ShareOffer → Bool) (refuse : FilePath → Option Failure) (dest : FilePath)
    (o : ShareOffer) (rest : List Incoming)
    → IsRefused (answer decide refuse dest o rest)
      ⊎ IsConsented decide (frame (offer o) ∷ rest) (answer decide refuse dest o rest)
unfolding answer
answer-consent decide refuse dest o rest = elim (Option-cases (total_len o)) [
  | inl e ↦ inl (ground (arith, e))
  | inr (claimed, e) ↦ elim (Bool-cases (ltb max_accept_bytes claimed)) [
    | inl over ↦ inl (ground (arith, e, over))
    | inr within ↦ elim (Bool-cases (decide o)) [
      | inl agreed ↦
          let (ss, found) = streams_of_total o claimed e in
          let total : some claimed ≡ some _ = sym e ∙ total_len-sum o ss found in
          let (sent, written) = accepted-within refuse dest o ss rest found in
          let same : answer decide refuse dest o rest ≡ accepted refuse dest o rest =
            ground (arith, e, within, agreed) in
          inr (
            o,
            rest,
            ss,
            refl,
            agreed,
            found,
            ground (arith, total, within),
            ap (λ s. s.sent) same ∙ sent,
            subst (λ s. written_len s.written ≤ sum_lens ss) (sym same) written,
          )
      | inr denied ↦
          let same : answer decide refuse dest o rest ≡ declined rest =
            ground (arith, e, within, denied) in
          inl (subst IsRefused (sym same) (declined-IsRefused rest))
    ]
  ]
]

-- Whatever a sender sends, a session either writes no file and sends no Accept, or the sender's
-- first frame was an offer that the human accepted, whose streams declare no more than 8 GiB, all
-- of them were asked for by their 32-bit numbers, and all files together have no more bytes than
-- they declare.
pub receive_share-consent :
    (decide : ShareOffer → Bool) (refuse : FilePath → Option Failure) (dest : FilePath)
    (incoming : List Incoming)
    → IsRefused (receive_share decide refuse dest incoming)
      ⊎ IsConsented decide incoming (receive_share decide refuse dest incoming)
unfolding receive_share
receive_share-consent decide refuse dest [] = inl (refl, refl)
receive_share-consent decide refuse dest (quiet ∷ rest) = inl (refl, refl)
receive_share-consent decide refuse dest (undecodable ∷ rest) = inl (refl, refl)
receive_share-consent decide refuse dest (frame (offer o) ∷ rest) =
    answer-consent decide refuse dest o rest
receive_share-consent decide refuse dest (frame (accept ss) ∷ rest) = inl (refl, refl)
receive_share-consent decide refuse dest (frame decline ∷ rest) = inl (refl, refl)
receive_share-consent decide refuse dest (frame (chunk s o b) ∷ rest) = inl (refl, refl)
receive_share-consent decide refuse dest (frame done ∷ rest) = inl (refl, refl)
