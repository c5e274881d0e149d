-- ===== src/Share/Tests.antt =====
-- The theorems on sharing at concrete paths, offers and sessions.
use roam.Prelude.{
  ℕ, Bool, true, Option, none, some, List, [], ◌∷◌, ◌++◌, map, any, if◌then◌else◌, ◌≡◌, ◌≢◌, ◌⊎◌,
  refl, arith,
}
use roam.Prelude.Bytes.{codes}
use roam.Prelude.Words.{split}
use roam.Share.Name.{
  ok, SafeName, RelPath, new_name, new_path, collect_names, display, has_drive, is_bidi_override,
}
use roam.Share.Name.Confinement.{resolve, new_path-descends}
use roam.Share.Payload.{
  FileMeta, Payload, StreamRef, ShareOffer, ShareFrame, streams, streams_from, item_streams,
  folder_streams, total_len, add_lens,
}
use roam.Share.Payload.Streams.{is_drive_folder, layout, streams-layout}
use roam.Share.Receive
use roam.Share.Sender.{chunks, chunk_frames}
use roam.Share.Sender.Transfer.{receive_chunks-chunks}
use roam.Share.Receive.Contents.{value_at, last_sent, receive_chunks-last_sent}
use roam.Share.Session.{
  FilePath, Received, inline_texts, write_files, accepted, answer, receive_share,
}
use roam.Share.Session.Consent.{IsRefused, IsConsented, receive_share-consent}
use roam.Share.Session.Delivery.{place, receive_share-delivers}

abbrev name : List ℕ → SafeName
name raw = record { text = raw }

abbrev readme : RelPath
readme = record { components = name (codes "docs") ∷ name (codes "a.txt") ∷ [] }

readme-new : new_path (codes "docs/a.txt") ≡ ok readme
unfolding new_path collect_names new_name is_bidi_override has_drive
readme-new = refl

photos-new : new_name (codes "photos") ≡ ok (name (codes "photos"))
unfolding new_name is_bidi_override
photos-new = refl

new_path-descends_example :
    (resolve (codes "home" ∷ []) (split b'/' (codes "docs/a.txt"))
      ≡ (codes "home" ∷ []) ++ split b'/' (codes "docs/a.txt"))
    × (split b'/' (codes "docs/a.txt") ≢ [])
new_path-descends_example =
    new_path-descends (codes "docs/a.txt") readme (codes "home" ∷ []) readme-new

-- An offer of a file, a folder with one file, and a note.
abbrev meta : FileMeta
meta = record { path = readme; len = 3 }

abbrev offered : ShareOffer
offered = record {
  from = codes "pc";
  items =
      Payload.file meta
      ∷ Payload.folder (name (codes "photos")) (meta ∷ [])
      ∷ Payload.text_note (codes "hi")
      ∷ [];
}

readme-shown : new_path (display readme) ≡ ok readme
unfolding new_path collect_names new_name is_bidi_override has_drive display
readme-shown = refl

streams-layout_example :
    streams offered
    ≡ (if any is_drive_folder offered.items then none else some (layout 0 offered.items))
streams-layout_example =
    streams-layout offered (readme-shown, ((photos-new, (readme-shown, tt)), (tt, tt)))

abbrev two_streams : List StreamRef
two_streams = layout 0 offered.items

offered-streams : streams offered ≡ some two_streams
unfolding streams streams_from item_streams folder_streams new_path collect_names new_name
    is_bidi_override has_drive display
offered-streams = refl

-- Two overlapping chunks of the first stream, and the end.
abbrev frames : List Receive.Incoming
frames =
    Receive.frame (ShareFrame.chunk 0 1 (8 ∷ 9 ∷ []))
    ∷ Receive.frame (ShareFrame.chunk 0 0 (7 ∷ 7 ∷ []))
    ∷ Receive.frame ShareFrame.done
    ∷ []

abbrev filled : Receive.Buffers
filled = (0, 7 ∷ 7 ∷ 9 ∷ []) ∷ []

frames-received : Receive.receive_chunks two_streams [] frames ≡ Receive.ok filled
unfolding Receive.receive_chunks Receive.write_chunk
frames-received = refl

receive_chunks-last_sent_example : value_at filled 0 2 ≡ last_sent 0 2 0 frames
receive_chunks-last_sent_example =
    receive_chunks-last_sent two_streams frames filled 0 2 frames-received

abbrev agree : ShareOffer → Bool
agree o = true

abbrev take_all : FilePath → Option Receive.Failure
take_all path = none

abbrev arriving : List Receive.Incoming
arriving = Receive.frame (ShareFrame.offer offered) ∷ frames

receive_share-consent_example :
    IsRefused (receive_share agree take_all (codes "home" ∷ []) arriving)
    ⊎ IsConsented agree arriving (receive_share agree take_all (codes "home" ∷ []) arriving)
receive_share-consent_example = receive_share-consent agree take_all (codes "home" ∷ []) arriving

abbrev done_well : Received
done_well = record {
  files = (codes "home" ∷ codes "docs" ∷ codes "a.txt" ∷ []) ∷ [];
  texts = codes "hi" ∷ [];
}

session-result :
    (receive_share agree take_all (codes "home" ∷ []) arriving).result ≡ Receive.ok done_well
unfolding receive_share answer accepted write_files total_len add_lens streams streams_from
    item_streams folder_streams new_path collect_names new_name is_bidi_override has_drive display
    Receive.receive_chunks Receive.write_chunk Receive.resolve_under
session-result = refl

receive_share-delivers_example :
    (m : Receive.Buffers) × (Receive.receive_chunks two_streams [] frames ≡ Receive.ok m)
    × ((receive_share agree take_all (codes "home" ∷ []) arriving).written
        ≡ map (λ b. (place (codes "home" ∷ []) two_streams b.0, b.1)) m)
    × (done_well.files ≡ map (λ b. place (codes "home" ∷ []) two_streams b.0) m)
    × (done_well.texts ≡ inline_texts offered.items)
receive_share-delivers_example =
    receive_share-delivers agree take_all (codes "home" ∷ []) offered two_streams frames done_well
      refl offered-streams (omega arith) session-result

abbrev second_stream : StreamRef
second_stream = record {
  item = 1;
  path = record { components = name (codes "photos") ∷ readme.components };
  len = 3;
}

receive_chunks-chunks_example :
    Receive.receive_chunks two_streams [] (
      map Receive.frame (chunk_frames 2 1 0 (chunks 3 2 (4 ∷ 5 ∷ 6 ∷ [])))
      ++ Receive.frame ShareFrame.done ∷ [])
    ≡ Receive.ok ((1, 4 ∷ 5 ∷ 6 ∷ []) ∷ [])
receive_chunks-chunks_example =
    receive_chunks-chunks two_streams 2 1 (4 ∷ 5 ∷ 6 ∷ []) second_stream (omega arith) refl refl
      (omega arith)
