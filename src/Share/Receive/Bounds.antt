-- ===== src/Share/Receive/Bounds.antt =====
-- What the receive loop keeps in memory is bounded by the lengths that the offer declares.
use roam.Prelude.{
  ℕ, suc, ◌≤◌, ◌<◌, Option, some, List, [], ◌∷◌, length, get_elem?, ◌==◌, ==→eq, ==_self, ◌≡◌,
  arith, ◌∙◌, ap, sym, subst, inl, inr, Bool-cases,
}
use roam.Prelude.Maps.{lookup, Above, IsAscending, Above-lookup, Above-mono}
use roam.Share.Payload.{StreamRef}
use roam.Share.Payload.Streams.{sum_lens}
use roam.Share.Receive.{Incoming, ok, Buffers, receive_chunks}
use roam.Share.Receive.Buffers.{HasDeclared-lookup, receive_chunks-HasDeclared}
use Prim.Native.Nat.{◌+◌, ◌-◌}

abbrev Declared : Option StreamRef → List ℕ → Type 0
Declared found buffer = (meta : StreamRef) × (found ≡ some meta) × (length buffer ≡ meta.len)

-- The buffers belong to the streams of a list whose first has the number `k`.
abbrev Fits : ℕ → List StreamRef → Buffers → Type 0
Fits k ss [] = Unit
Fits k ss ((j, buffer) ∷ m) = (k ≤ j) × Declared (get_elem? ss (j - k)) buffer × Fits k ss m

-- The bytes of all buffers.
abbrev pub buffered : Buffers → ℕ
buffered [] = 0
buffered ((j, buffer) ∷ m) = length buffer + buffered m

Fits-of_lookups :
    (ss : List StreamRef) (m : Buffers)
    → IsAscending m
    → ((k : ℕ) (buffer : List ℕ) → lookup k m ≡ some buffer → Declared (get_elem? ss k) buffer)
    → Fits 0 ss m
Fits-of_lookups ss [] ascending h = tt
Fits-of_lookups ss ((j, buffer) ∷ m) (above, ascending) h = (
  omega arith,
  subst (λ i. Declared (get_elem? ss i) buffer) (omega arith)
      (h j buffer (ground (arith, ==_self j))),
  Fits-of_lookups ss m ascending
      (λ k b e. h k b (ground (arith, e, ==→eq k j, Above-lookup j k m above))),
)

Fits-tail :
    (k : ℕ) (s : StreamRef) (ss : List StreamRef) (m : Buffers)
    → Above k m
    → Fits k (s ∷ ss) m
    → Fits (suc k) ss m
Fits-tail k s ss [] above fits = tt
Fits-tail k s ss ((j, buffer) ∷ m) (lt, above) (le, declared, rest) =
    let next : j - k ≡ suc (j - suc k) = omega (arith, lt) in
    (
      omega (arith, lt),
      subst (λ i. Declared (get_elem? (s ∷ ss) i) buffer) next declared,
      Fits-tail k s ss m above rest,
    )

Fits-bound :
    (k : ℕ) (ss : List StreamRef) (m : Buffers)
    → IsAscending m
    → Fits k ss m
    → buffered m ≤ sum_lens ss
Fits-bound k [] [] ascending fits = omega arith
Fits-bound k [] ((j, buffer) ∷ m) ascending (le, (meta, found, sized), rest) =
    absurd (ground (arith, found))
Fits-bound k (s ∷ ss) [] ascending fits = omega arith
Fits-bound k (s ∷ ss) ((j, buffer) ∷ m) (above, ascending) (le, (meta, found, sized), rest) =
    elim (Bool-cases (j == k)) [
      | inl e ↦
          let same = ==→eq j k e in
          let start : j - k ≡ 0 = omega (arith, same) in
          let first : s ≡ meta =
            ground (arith, subst (λ i. get_elem? (s ∷ ss) i ≡ some meta) start found) in
          let tail =
            Fits-bound (suc k) ss m ascending (Fits-tail k s ss m (rw (sym same) above) rest) in
          omega (arith, tail, sized ∙ ap (λ s. s.len) (sym first))
      | inr e ↦
          let lt : k < j = ground (arith, e, le, ==_self k) in
          let tail =
            Fits-bound (suc k) ss ((j, buffer) ∷ m) (above, ascending)
              (Fits-tail k s ss ((j, buffer) ∷ m) (lt, Above-mono k j m (omega (arith, lt)) above)
                (le, (meta, found, sized), rest)) in
          omega (arith, tail)
    ]

-- All buffers of a completed transfer together hold at most the bytes that the offer's streams
-- declare, whatever frames came.
pub receive_chunks-buffered :
    (ss : List StreamRef) (frames : List Incoming) (out : Buffers)
    → receive_chunks ss [] frames ≡ ok out
    → buffered out ≤ sum_lens ss
receive_chunks-buffered ss frames out h =
    let (ascending, declared) = receive_chunks-HasDeclared ss frames out h in
    Fits-bound 0 ss out ascending
      (Fits-of_lookups ss out ascending (HasDeclared-lookup ss out declared))
