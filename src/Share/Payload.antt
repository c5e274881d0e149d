-- ===== src/Share/Payload.antt =====
-- What is offered and the frames of a share session: crates/roam-share/src/payload.rs.
pub mod Streams
use roam.Prelude.{
  ℕ, suc, Bool, true, false, Option, none, some, List, [], ◌∷◌, ◌++◌, ltb, if◌then◌else◌,
}
use roam.Prelude.Bytes.{codes}
use roam.Share.Name.{NameError, Result, ok, err, SafeName, RelPath, new_path, display}
use Prim.Native.Nat.{◌+◌}

pub record FileMeta : Type 0 where
  pub path : RelPath
  pub len : ℕ

pub record Contact : Type 0 where
  pub display_name : List ℕ
  pub fields : List (List ℕ × List ℕ)

pub data Payload : Type 0 where
  file : FileMeta → Payload
  folder : (name : SafeName) (files : List FileMeta) → Payload
  text_note clipboard : List ℕ → Payload
  contact : Contact → Payload

pub record StreamRef : Type 0 where
  pub item : ℕ
  pub path : RelPath
  pub len : ℕ

pub record ShareOffer : Type 0 where
  pub from : List ℕ
  pub items : List Payload

-- `.expect(..)`: nothing where the code panics.
abbrev expect : {A : Type 0} → Result A → Option A
expect (ok a) = some a
expect (err e) = none

infixl 5 ◌>>=◌
abbrev pub ◌>>=◌ : {A B : Type 0} → Option A → (A → Option B) → Option B
some a >>= f = f a
none >>= f = none

-- `RelPath::new(&format!("{name}/{}", meta.path))`, the path of a folder's file.
abbrev pub folder_path : SafeName → FileMeta → Option RelPath
folder_path name meta = expect (new_path (name.text ++ b'/' ∷ display meta.path))

unfoldable pub folder_streams :
    (item : ℕ) (name : SafeName) → List FileMeta → Option (List StreamRef)
folder_streams item name [] = some []
folder_streams item name (meta ∷ files) = do
  path ← folder_path name meta
  rest ← folder_streams item name files
  some (record { item = item; path = path; len = meta.len } ∷ rest)

-- What one payload pushes.
unfoldable pub item_streams : (item : ℕ) → Payload → Option (List StreamRef)
item_streams item (file meta) = some (record { item = item; path = meta.path; len = meta.len } ∷ [])
item_streams item (folder name files) = folder_streams item name files
item_streams item (text_note t) = some []
item_streams item (clipboard t) = some []
item_streams item (contact c) = some []

-- The loop of `streams`, at the item of the given index.
unfoldable pub streams_from : (item : ℕ) → List Payload → Option (List StreamRef)
streams_from item [] = some []
streams_from item (p ∷ ps) = do
  here ← item_streams item p
  rest ← streams_from (suc item) ps
  some (here ++ rest)

unfoldable pub streams : ShareOffer → Option (List StreamRef)
streams offer = streams_from 0 offer.items

abbrev pub u64_max : ℕ
u64_max = 18446744073709551615

-- `u64::saturating_add`
abbrev pub saturating_add : ℕ → ℕ → ℕ
saturating_add a b = if ltb u64_max (a + b) then u64_max else a + b

unfoldable pub add_lens : ℕ → List StreamRef → ℕ
add_lens acc [] = acc
add_lens acc (s ∷ ss) = add_lens (saturating_add acc s.len) ss

unfoldable pub total_len : ShareOffer → Option ℕ
total_len offer = do ss ← streams offer; some (add_lens 0 ss)

pub data ShareFrame : Type 0 where
  offer : ShareOffer → ShareFrame
  accept : (streams : List ℕ) → ShareFrame
  decline : ShareFrame
  chunk : (stream offset : ℕ) (bytes : List ℕ) → ShareFrame
  done : ShareFrame

abbrev pub kind : ShareFrame → List ℕ
kind (offer o) = codes "Offer"
kind (accept ss) = codes "Accept"
kind decline = codes "Decline"
kind (chunk s o b) = codes "Chunk"
kind done = codes "Done"
