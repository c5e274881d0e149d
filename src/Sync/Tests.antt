-- ===== src/Sync/Tests.antt =====
-- The theorems on the sync engine at a small vault, and runs of its handlers.
use roam.Prelude.{
  ℕ, ◌≤◌, Bool, true, false, map, Option, none, some, List, [], ◌∷◌, ◌++◌, length, replicate, leb,
  ◌+◌, ◌%◌, ◌≡◌, refl, ◌↔◌, arith,
}
use roam.Prelude.Maps.{contains}
use roam.Prelude.Keyed.{number_key, texts_key}
use roam.Prelude.Bytes.{codes}
use roam.Roster.Entry.{PeerRecord, active, revoked, writer}
use roam.Files.Entry.{FileEntry, blob, live}
use roam.Storage.Vfs.Memory.{MemState}
use roam.Storage.Blob.Memory.{mem_store}
use roam.Sync.Frame.{hello, have}
use roam.Sync.Chunks.{entry_or_new, is_complete}
use roam.Sync.Chunks.Count.{HaveCome, count_all, count_all_complete}
use roam.Sync.Engine.{StoreCalls, Versions, Device, Engine, send, changed, with_store}
use roam.Sync.Engine.Blobs.{serve}
use roam.Sync.Engine.Handle.{Arrival, handle, run}
use roam.Sync.Engine.Gate.{Answers, handle-Answers}
use roam.Sync.Engine.Greeting.{run-hellos}
use roam.Sync.Engine.Hellos.{hellos, one_if}
use roam.Sync.Engine.Acked.{Grows, run-Grows}
use roam.Sync.Engine.Push.{ops_sent, flush_each, flush_each-sends}
use roam.Sync.Engine.Reachable.{starts, moves, handles, Reach-IsConsistent}
use roam.Sync.Engine.Tracked.{IsConsistent}
use roam.Sync.Engine.Assembly.{in_memory, deliver, IsThere, IsWanted, IsAbsent, deliver-blob}
use roam.Sync.Engine.Transfer.{chunk_frame, serve-deliver}

-- Digests that tell lengths apart.
abbrev toy_hash : List ℕ → List ℕ
toy_hash bytes = replicate 63 b'a' ++ (b'0' + length bytes % 10) ∷ []

abbrev member : ℕ → PeerRecord
member peer = record {
  peer_id = peer;
  verifying_key = peer ∷ [];
  status = active;
  role = writer;
  name = none;
}

abbrev outcast : PeerRecord
outcast = record (member 3) { status = revoked }

abbrev small_blob : List ℕ
small_blob = 7 ∷ 8 ∷ 9 ∷ []

-- The vault is its own log.
abbrev toy_calls : StoreCalls (List ℕ) Bool
toy_calls = record {
  roster = λ v. member 1 ∷ member 2 ∷ outcast ∷ [];
  export_own_log = λ v. some v;
  export_own_roster = λ v. some (1 ∷ []);
  export_own_keylog = λ v. none;
  export_peer_log = λ peer v. some (peer ∷ []);
  export_keylog = λ peer v. none;
  doc_version_bytes = λ v. length v ∷ [];
  held_snapshot_ids = λ v. some [];
  load_snapshot_object = λ id v. none;
  entries = λ v. toy_hash small_blob ∷ [];
  edit_text = λ id pos text v. (true, v ++ text);
  apply_peer_ops = λ author key jsonl v. (true, v ++ jsonl);
  import_roster = λ author key jsonl v. (true, v);
  import_keylog = λ author key jsonl v. (true, v);
  keychain = λ v. some true;
  admin_author_keys = λ v. [];
  verify_and_adopt_snapshot = λ kc keys id framed v. (false, v);
  add_peer = λ peer key role v. (true, v);
  revoke_peer = λ peer key v. (true, v);
  set_role = λ peer key role v. (true, v);
  set_device_name = λ name v. (true, v);
  rotate_epoch = λ paper v. (some (0 ∷ []), v);
  recover_with_paper = λ phrase v. (some 0, v);
  backfill_wraps = λ v. (some 0, v);
}

abbrev first_byte : List ℕ → Option ℕ
first_byte [] = none
first_byte (b ∷ bytes) = some b

abbrev toy_entry : List ℕ → Option FileEntry
toy_entry value = some (record {
  kind = blob;
  status = live;
  content_hash = value;
  renamed_from = none;
  tombstoned_at = none;
})

abbrev toy : Device (List ℕ) Bool ℕ MemState
toy = record {
  peer_id = 9;
  vault_id = 5 ∷ [];
  calls = toy_calls;
  versions = record { from_bytes = first_byte; includes = λ a b. leb b a };
  from_value = toy_entry;
  is_key = λ key. true;
  blobs = mem_store (codes "assets" ∷ []);
  blake3 = toy_hash;
}

abbrev empty_disk : MemState
empty_disk = record { files = []; dirs = []; owner_only = [] }

abbrev started : Engine (List ℕ) MemState
started = with_store (4 ∷ []) empty_disk

abbrev reach_all : ℕ → Bool
reach_all peer = true

abbrev greeted : Arrival
greeted = record { peer = 1; frame = hello (5 ∷ []); reachable = reach_all }

abbrev advanced : Arrival
advanced = record { peer = 1; frame = have (6 ∷ []); reachable = reach_all }

outcast-is_ignored : handle toy reach_all 3 (hello (5 ∷ [])) started ≡ (started, [])
unfolding roam.Sync.Engine.Gossip.on_hello roam.Sync.Engine.is_active
outcast-is_ignored = refl

count_all_complete_example :
    ((count_all 3 ((0, 3) ∷ []) (entry_or_new 3 none)).received ≤ 3)
    × ((is_complete (count_all 3 ((0, 3) ∷ []) (entry_or_new 3 none)) ≡ true)
        ↔ HaveCome 3 ((0, 3) ∷ []))
unfolding roam.Sync.Chunks.chunk_is_admissible roam.Sync.Chunks.chunk_offset_is_admissible
    roam.Sync.Chunks.expected_chunk_len
count_all_complete_example = count_all_complete 3 ((0, 3) ∷ []) (refl, tt)

handle-Answers_example : Answers toy (handle toy reach_all 1 (hello (5 ∷ [])) started)
handle-Answers_example = handle-Answers toy reach_all 1 (hello (5 ∷ [])) started

run-hellos_example :
    (hellos 1 (run toy (greeted ∷ greeted ∷ []) started).1 + one_if (contains 1 started.connected)
      ≤ 1)
    × (1 ≤ hellos 1 (run toy (greeted ∷ greeted ∷ []) started).1
        → contains 1 ((run toy (greeted ∷ greeted ∷ []) started).0).connected ≡ true)
run-hellos_example =
    run-hellos toy 1 (greeted ∷ greeted ∷ []) started (λ vault. (refl, (refl, (refl, tt))))

leb_trans : (u v w : ℕ) → leb v u ≡ true → leb w v ≡ true → leb w u ≡ true
leb_trans u v w h k = ground arith

leb_self : (v : ℕ) → leb v v ≡ true
leb_self v = ground arith

run-Grows_example :
    Grows toy 1
      (started.acked_versions)
      ((run toy (advanced ∷ advanced ∷ []) started).0).acked_versions
run-Grows_example = run-Grows toy (leb_self, leb_trans) 1 (advanced ∷ advanced ∷ []) started

abbrev tracking : Engine (List ℕ) MemState
tracking = record started { sent_offsets = (1, 1) ∷ [] }

flush_each-sends_example :
    ops_sent 1 (flush_each toy ((4 ∷ 5 ∷ [], 5 ∷ []) ∷ (4 ∷ 5 ∷ 6 ∷ [], 6 ∷ []) ∷ []) tracking).1
    ≡ 5 ∷ 6 ∷ []
unfolding roam.Sync.Engine.Offers.own_log_of
flush_each-sends_example =
    flush_each-sends toy 1 ((4 ∷ 5 ∷ [], 5 ∷ []) ∷ (4 ∷ 5 ∷ 6 ∷ [], 6 ∷ []) ∷ []) (4 ∷ []) tracking
      (tt, tt) refl (refl, (refl, tt))

Reach-IsConsistent_example : IsConsistent (handle toy reach_all 1 (hello (5 ∷ [])) started).0
Reach-IsConsistent_example =
    Reach-IsConsistent toy
      (moves (starts (4 ∷ []) empty_disk) (handles reach_all 1 (hello (5 ∷ []))))

abbrev assets : List (List ℕ)
assets = codes "assets" ∷ []

small_blob-IsWanted : IsWanted toy assets (toy_hash small_blob) small_blob started
unfolding roam.Sync.Engine.fileset_wants
small_blob-IsWanted = (refl, refl, omega arith, omega arith, refl)

small_blob-IsAbsent : IsAbsent toy assets (toy_hash small_blob) small_blob started
small_blob-IsAbsent = ((refl, refl, refl, refl), refl)

deliver-blob_example :
    IsThere toy assets
      (toy_hash small_blob)
      small_blob
      (deliver toy assets (toy_hash small_blob) small_blob (0 ∷ 0 ∷ []) started).0
    × ((deliver toy assets (toy_hash small_blob) small_blob (0 ∷ 0 ∷ []) started).1 ≡ changed ∷ [])
unfolding roam.Sync.Chunks.chunk_offset_is_admissible
deliver-blob_example =
    deliver-blob toy assets (toy_hash small_blob) small_blob (0 ∷ 0 ∷ []) started
      small_blob-IsWanted small_blob-IsAbsent (refl, (refl, tt)) (λ pos below. ground arith)

abbrev serving_disk : MemState
serving_disk = record empty_disk {
  files = (codes "assets" ∷ toy_hash small_blob ∷ [], small_blob) ∷ [];
}

serve-deliver_example :
    (offsets : List ℕ) × (serve (in_memory toy assets) 1 (toy_hash small_blob) 3 serving_disk
      ≡ map (chunk_frame toy assets (toy_hash small_blob) small_blob 1) offsets)
    × IsThere toy assets
        (toy_hash small_blob)
        small_blob
        (deliver toy assets (toy_hash small_blob) small_blob offsets started).0
    × ((deliver toy assets (toy_hash small_blob) small_blob offsets started).1 ≡ changed ∷ [])
serve-deliver_example =
    serve-deliver toy assets (toy_hash small_blob) small_blob 1 serving_disk started refl
      small_blob-IsWanted small_blob-IsAbsent
