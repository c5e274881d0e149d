-- ===== src/Sync/Chunks/Count.antt =====
-- Counting the bytes of distinct chunks says whether all of them have come.
use roam.Prelude.{
  ℕ, zero, suc, ◌+◌, ◌-◌, ◌*◌, ◌/◌, ◌%◌, ◌≤◌, ◌<◌, Bool, true, false, none, All, any, ◌||◌, List,
  [], ◌∷◌, leb, ◌==◌, ==→eq, if◌then◌else◌, ◌≡◌, refl, arith, ◌∙◌, ap, sym, inl, inr, Bool-cases,
  ◌↔◌,
}
use roam.Prelude.Maps.{contains}
use roam.Sync.Chunks.{
  blob_chunk_size, IncomingBlob, chunk_offset_is_admissible, expected_chunk_len,
  chunk_is_admissible, entry_or_new, count_chunk, is_complete,
}

-- The offset of the chunk that a position lies in.
abbrev pub chunk_of : ℕ → ℕ
chunk_of pos = pos / blob_chunk_size * blob_chunk_size

abbrev one_if : Bool → ℕ
one_if true = 1
one_if false = 0

-- How many positions below the end lie in a chunk that was seen.
abbrev covered : List ℕ → ℕ → ℕ
covered seen zero = 0
covered seen (suc n) = one_if (contains (chunk_of n) seen) + covered seen n

-- The number of positions of one chunk below an end.
chunk_below : (offset n : ℕ) → ℕ
chunk_below offset n =
    if leb n offset
    then 0
    else if leb blob_chunk_size (n - offset)
    then blob_chunk_size
    else n - offset

covered-le : (seen : List ℕ) (n : ℕ) → covered seen n ≤ n
covered-le seen zero = omega arith
covered-le seen (suc n) = elim (Bool-cases (contains (chunk_of n) seen)) [
  | inl t ↦ rw t (omega (arith, covered-le seen n))
  | inr f ↦ rw f (omega (arith, covered-le seen n))
]

-- All positions are covered when the count is full, and only then.
covered_all :
    (seen : List ℕ) (n : ℕ)
    → n ≤ covered seen n
    → (pos : ℕ) → pos < n
    → contains (chunk_of pos) seen ≡ true
covered_all seen zero full pos lt = absurd (omega (arith, lt))
covered_all seen (suc n) full pos lt = elim (Bool-cases (contains (chunk_of n) seen)) [
  | inl t ↦ elim (Bool-cases (pos == n)) [
    | inl e ↦ rw (==→eq pos n e) t
    | inr ne ↦ covered_all seen n (omega (arith, rw t at full)) pos (ground (arith, lt, ne))
  ]
  | inr f ↦ absurd (omega (arith, covered-le seen n, rw f at full))
]

all_covered :
    (seen : List ℕ) (n : ℕ)
    → ((pos : ℕ) → pos < n → contains (chunk_of pos) seen ≡ true)
    → covered seen n ≡ n
all_covered seen zero h = refl
all_covered seen (suc n) h =
    let rest = all_covered seen n (λ pos lt. h pos (omega (arith, lt))) in
    rw (h n (omega arith)) (omega (arith, rest))

covered-step :
    (offset n : ℕ)
    → offset % blob_chunk_size ≡ 0
    → chunk_below offset (suc n) ≡ one_if (chunk_of n == offset) + chunk_below offset n
unfolding chunk_below
covered-step offset n aligned = ground (arith, aligned)

covered-insert :
    (offset : ℕ) (seen : List ℕ) (n : ℕ)
    → offset % blob_chunk_size ≡ 0
    → contains offset seen ≡ false
    → covered (offset ∷ seen) n ≡ chunk_below offset n + covered seen n
unfolding chunk_below
covered-insert offset seen zero aligned new = ground arith
covered-insert offset seen (suc n) aligned new =
    let rest = covered-insert offset seen n aligned new in
    let step = covered-step offset n aligned in
    elim (Bool-cases (chunk_of n == offset)) [
      | inl e ↦
          let old : contains (chunk_of n) seen ≡ false = rw (==→eq (chunk_of n) offset e) new in
          rw (e, old) (omega (arith, rest, rw e at step))
      | inr ne ↦ rw ne (omega (arith, rest, rw ne at step))
    ]

-- An admissible chunk has the length of its block.
admissible-aligned :
    (offset total_len len : ℕ)
    → chunk_is_admissible offset total_len len ≡ true
    → (offset % blob_chunk_size ≡ 0) × (len ≡ chunk_below offset total_len) × (offset ≤ total_len)
unfolding chunk_is_admissible chunk_offset_is_admissible expected_chunk_len chunk_below
admissible-aligned offset total_len len h = ground arith

-- The bytes counted are those of the chunks that were seen.
abbrev pub IsCounted : IncomingBlob → Type 0
IsCounted entry = entry.received ≡ covered entry.seen entry.total_len

pub entry_or_new-IsCounted : (total_len : ℕ) → IsCounted (entry_or_new total_len none)
entry_or_new-IsCounted total_len = sym (nothing total_len)
  where
    nothing : (n : ℕ) → covered [] n ≡ 0
    nothing zero = refl
    nothing (suc n) = omega (arith, nothing n)

pub count_chunk-IsCounted :
    (offset total_len len : ℕ) (entry : IncomingBlob)
    → chunk_is_admissible offset total_len len ≡ true
    → IsCounted entry
    → IsCounted (count_chunk offset total_len len entry)
unfolding count_chunk
count_chunk-IsCounted offset total_len len entry ok counted =
    elim (Bool-cases (entry.total_len == total_len)) [
      | inr ne ↦ rw ne counted
      | inl e ↦ elim (Bool-cases (contains offset entry.seen)) [
        | inl old ↦ rw (e, old) counted
        | inr new ↦
            let (aligned, sized, inside) = admissible-aligned offset total_len len ok in
            let more = covered-insert offset entry.seen entry.total_len aligned new in
            let same = ==→eq entry.total_len total_len e in
            rw (e, new) (omega (arith, more, counted, sized, ap (chunk_below offset) same))
      ]
    ]

-- A blob whose bytes are counted is complete exactly when each position's chunk was seen.
pub seen_of_complete :
    (entry : IncomingBlob)
    → IsCounted entry
    → is_complete entry ≡ true
    → (pos : ℕ) → pos < entry.total_len
    → contains (chunk_of pos) entry.seen ≡ true
seen_of_complete entry counted complete =
    covered_all entry.seen entry.total_len (ground (arith, complete, counted))

pub complete_of_seen :
    (entry : IncomingBlob)
    → IsCounted entry
    → ((pos : ℕ) → pos < entry.total_len → contains (chunk_of pos) entry.seen ≡ true)
    → is_complete entry ≡ true
complete_of_seen entry counted seen =
    let full = all_covered entry.seen entry.total_len seen in ground (arith, full, counted)

-- The chunks of a blob of this length, as the handler counts those that it accepts.
abbrev pub count_all : (total_len : ℕ) → List (ℕ × ℕ) → IncomingBlob → IncomingBlob
count_all total_len [] entry = entry
count_all total_len ((offset, len) ∷ chunks) entry =
    count_all total_len chunks (count_chunk offset total_len len entry)

abbrev pub AreAdmissible : (total_len : ℕ) → List (ℕ × ℕ) → Type 0
AreAdmissible total_len = All (λ chunk. chunk_is_admissible chunk.0 total_len chunk.1 ≡ true)

abbrev pub is_among : ℕ → List (ℕ × ℕ) → Bool
is_among offset = any (λ chunk. offset == chunk.0)

pub count_chunk-total_len :
    (offset total_len len : ℕ) (entry : IncomingBlob)
    → (count_chunk offset total_len len entry).total_len ≡ entry.total_len
unfolding count_chunk
count_chunk-total_len offset total_len len entry = ground arith

pub count_chunk-seen :
    (offset total_len len x : ℕ) (entry : IncomingBlob)
    → entry.total_len ≡ total_len
    → contains x (count_chunk offset total_len len entry).seen
      ≡ (x == offset || contains x entry.seen)
unfolding count_chunk
count_chunk-seen offset total_len len x entry same =
    let agrees : (entry.total_len == total_len) ≡ true = ground (arith, same) in
    elim (Bool-cases (contains offset entry.seen)) [
      | inl old ↦
          rw (agrees, old)
            (elim (Bool-cases (x == offset)) [
              | inl e ↦ rw e (rw (==→eq x offset e) old)
              | inr ne ↦ rw ne refl
            ])
      | inr new ↦ rw (agrees, new) refl
    ]

count_all-IsCounted :
    (total_len : ℕ) (chunks : List (ℕ × ℕ)) (entry : IncomingBlob)
    → AreAdmissible total_len chunks
    → IsCounted entry
    → IsCounted (count_all total_len chunks entry)
count_all-IsCounted total_len [] entry ok counted = counted
count_all-IsCounted total_len ((offset, len) ∷ chunks) entry ok counted =
    count_all-IsCounted total_len chunks (count_chunk offset total_len len entry) ok.1
      (count_chunk-IsCounted offset total_len len entry ok.0 counted)

count_all-total_len :
    (total_len : ℕ) (chunks : List (ℕ × ℕ)) (entry : IncomingBlob)
    → (count_all total_len chunks entry).total_len ≡ entry.total_len
count_all-total_len total_len [] entry = refl
count_all-total_len total_len ((offset, len) ∷ chunks) entry =
    count_all-total_len total_len chunks (count_chunk offset total_len len entry)
    ∙ count_chunk-total_len offset total_len len entry

count_all-seen :
    (total_len x : ℕ) (chunks : List (ℕ × ℕ)) (entry : IncomingBlob)
    → entry.total_len ≡ total_len
    → contains x (count_all total_len chunks entry).seen
      ≡ (is_among x chunks || contains x entry.seen)
count_all-seen total_len x [] entry same = refl
count_all-seen total_len x ((offset, len) ∷ chunks) entry same =
    let next = count_chunk offset total_len len entry in
    let here = count_chunk-seen offset total_len len x entry same in
    let rest =
      count_all-seen total_len x chunks next
        (count_chunk-total_len offset total_len len entry ∙ same) in
    rest ∙ ground (arith, here)

abbrev pub HaveCome : (total_len : ℕ) → List (ℕ × ℕ) → Type 0
HaveCome total_len chunks = (pos : ℕ) → pos < total_len → is_among (chunk_of pos) chunks ≡ true

-- Counting admissible chunks from the start, in any order and with any repetitions: the counter
-- never exceeds the length, and the blob is complete exactly when each position's chunk has come.
pub count_all_complete :
    (total_len : ℕ) (chunks : List (ℕ × ℕ))
    → AreAdmissible total_len chunks
    → ((count_all total_len chunks (entry_or_new total_len none)).received ≤ total_len)
      × ((is_complete (count_all total_len chunks (entry_or_new total_len none)) ≡ true)
          ↔ HaveCome total_len chunks)
count_all_complete total_len chunks ok =
    let start = entry_or_new total_len none in
    let end = count_all total_len chunks start in
    let counted =
      count_all-IsCounted total_len chunks start ok (entry_or_new-IsCounted total_len) in
    let same = count_all-total_len total_len chunks start in
    let has : (x : ℕ) → contains x end.seen ≡ is_among x chunks =
      λ x. count_all-seen total_len x chunks start refl ∙ ground arith in
    (
      omega (arith, counted, same, covered-le end.seen end.total_len),
      (
        λ complete pos lt.
            sym (has (chunk_of pos))
            ∙ seen_of_complete end counted complete pos (omega (arith, lt, same)),
        λ come.
            complete_of_seen end counted
              (λ pos lt. has (chunk_of pos) ∙ come pos (omega (arith, lt, same))),
      ),
    )
