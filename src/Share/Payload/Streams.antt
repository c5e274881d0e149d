-- ===== src/Share/Payload/Streams.antt =====
-- The streams of an offer: where each file goes, and when the code panics.
use roam.Prelude.{
  ℕ, suc, ◌≤◌, Bool, true, false, ◌&&◌, none, some, List, [], ◌∷◌, ◌++◌, ltb, if◌then◌else◌, ◌≡◌,
  refl, arith, All, Bool-cases, ◌∙◌, ap, any, inl, inr, Option-cases,
}
use roam.Share.Name.{SafeName, ok, new_name, new_path, display, has_drive}
use roam.Share.Name.RoundTrip.{new_path-under}
use roam.Share.Payload.{
  FileMeta, Payload, file, folder, text_note, clipboard, contact, StreamRef, ShareOffer, ◌>>=◌,
  folder_path, folder_streams, item_streams, streams_from, streams, u64_max, saturating_add,
  add_lens, total_len,
}
use Prim.Native.Nat.{◌+◌}

-- What decoding guarantees: the names and paths of an offer were validated.
abbrev pub IsValidMeta : FileMeta → Type 0
IsValidMeta meta = new_path (display meta.path) ≡ ok meta.path

abbrev pub IsValidItem : Payload → Type 0
IsValidItem (file meta) = IsValidMeta meta
IsValidItem (folder name files) = (new_name name.text ≡ ok name) × All IsValidMeta files
IsValidItem (text_note t) = Unit
IsValidItem (clipboard t) = Unit
IsValidItem (contact c) = Unit

abbrev some_file : List FileMeta → Bool
some_file [] = false
some_file (m ∷ ms) = true

-- A folder with files whose name looks like a drive.
abbrev pub is_drive_folder : Payload → Bool
is_drive_folder (folder name files) = has_drive name.text && some_file files
is_drive_folder (file m) = false
is_drive_folder (text_note t) = false
is_drive_folder (clipboard t) = false
is_drive_folder (contact c) = false

-- Where the files of an offer go, without any parsing.
abbrev folder_layout : ℕ → SafeName → List FileMeta → List StreamRef
folder_layout item name [] = []
folder_layout item name (m ∷ ms) =
    record { item = item; path = record { components = name ∷ m.path.components }; len = m.len }
    ∷ folder_layout item name ms

abbrev item_layout : ℕ → Payload → List StreamRef
item_layout item (file m) = record { item = item; path = m.path; len = m.len } ∷ []
item_layout item (folder name files) = folder_layout item name files
item_layout item (text_note t) = []
item_layout item (clipboard t) = []
item_layout item (contact c) = []

abbrev pub layout : ℕ → List Payload → List StreamRef
layout item [] = []
layout item (p ∷ ps) = item_layout item p ++ layout (suc item) ps

folder_path-under :
    (name : SafeName) (meta : FileMeta)
    → new_name name.text ≡ ok name
    → IsValidMeta meta
    → folder_path name meta ≡ (
        if has_drive name.text
        then none
        else some (record { components = name ∷ meta.path.components }))
folder_path-under name meta named valid =
    ground (arith, new_path-under name (display meta.path) meta.path named valid)

folder_streams-layout :
    (item : ℕ) (name : SafeName) (files : List FileMeta)
    → new_name name.text ≡ ok name
    → All IsValidMeta files
    → folder_streams item name files ≡ (
        if has_drive name.text && some_file files
        then none
        else some (folder_layout item name files))
unfolding folder_streams
folder_streams-layout item name [] named valid = ground arith
folder_streams-layout item name (m ∷ ms) named (valid, rest) =
    let here = folder_path-under name m named valid in
    let there = folder_streams-layout item name ms named rest in
    elim (Bool-cases (has_drive name.text)) [
      | inl t ↦ ground (arith, here, there, t)
      | inr f ↦ ground (arith, here, there, f)
    ]

item_streams-layout :
    (item : ℕ) (p : Payload)
    → IsValidItem p
    → item_streams item p ≡ (if is_drive_folder p then none else some (item_layout item p))
unfolding item_streams
item_streams-layout item (file m) valid = refl
item_streams-layout item (folder name files) (named, valid) =
    folder_streams-layout item name files named valid
item_streams-layout item (text_note t) valid = refl
item_streams-layout item (clipboard t) valid = refl
item_streams-layout item (contact c) valid = refl

streams_from-layout :
    (item : ℕ) (ps : List Payload)
    → All IsValidItem ps
    → streams_from item ps ≡ (if any is_drive_folder ps then none else some (layout item ps))
unfolding streams_from
streams_from-layout item [] valid = refl
streams_from-layout item (p ∷ ps) (valid, rest) =
    let here = item_streams-layout item p valid in
    let there = streams_from-layout (suc item) ps rest in ground (arith, here, there)

-- Of a validated offer `streams` gives each file at its path, a folder's files under the folder's
-- name, in the offer's order; it panics exactly if a folder with files has a name like a drive.
pub streams-layout :
    (offer : ShareOffer)
    → All IsValidItem offer.items
    → streams offer
      ≡ (if any is_drive_folder offer.items then none else some (layout 0 offer.items))
unfolding streams
streams-layout offer valid = streams_from-layout 0 offer.items valid

abbrev pub sum_lens : List StreamRef → ℕ
sum_lens [] = 0
sum_lens (s ∷ ss) = s.len + sum_lens ss

add_lens_lem :
    (acc : ℕ) (ss : List StreamRef)
    → acc ≤ u64_max
    → add_lens acc ss ≡ (if ltb u64_max (acc + sum_lens ss) then u64_max else acc + sum_lens ss)
unfolding add_lens
add_lens_lem acc [] h = ground arith
add_lens_lem acc (s ∷ ss) h =
    let bounded : saturating_add acc s.len ≤ u64_max = ground arith in
    ground (arith, add_lens_lem (saturating_add acc s.len) ss bounded)

-- Where `streams` returns, the total that an offer claims is the sum of its streams' lengths, or
-- the largest 64-bit number where the sum is larger; a hostile offer never wraps it to a small
-- one.
pub total_len-sum :
    (offer : ShareOffer) (ss : List StreamRef)
    → streams offer ≡ some ss
    → total_len offer ≡ some (if ltb u64_max (sum_lens ss) then u64_max else sum_lens ss)
unfolding total_len
total_len-sum offer ss h =
    ap (λ r. r >>= λ ss. some (add_lens 0 ss)) h
    ∙ ap some (ground (arith, add_lens_lem 0 ss (omega arith)))

pub streams_of_total :
    (offer : ShareOffer) (total : ℕ)
    → total_len offer ≡ some total
    → (ss : List StreamRef) × (streams offer ≡ some ss)
unfolding total_len
streams_of_total offer total h = elim (Option-cases (streams offer)) [
  | inl e ↦ absurd (ground (arith, e))
  | inr found ↦ found
]
