-- ===== src/Lib.antt =====
-- The verification of roam: a peer-to-peer vault whose devices agree on who belongs to it through
-- signed logs, and the one-shot sharing of files with a stranger.
--
-- The parts and the code they model, with paths from the repository's root:
--
-- Roster models the data of crates/roam-storage/src/roster.rs and its two pure functions.
--   Roster/Entry.antt has the types (Role, RosterOp, RosterEntry, PeerStatus, PeerRecord),
--   Roster/Canonical.antt the signed bytes (canonical_bytes), Roster/Merge.antt the passes of
--   merge_roster in the code's order: the filter on derived peer ids, the loop over ever_admin, the
--   ceilings, the third pass over keys, revoked and roles, the names, and the sorted output. The
--   maps are association lists ascending in their keys (BTreeMap), the sets are lists (HashSet),
--   and `keys[subject]`, which may panic, makes the result an Option. The specification is in
--   Roster/Merge/Meaning.antt and the modules it uses: it speaks of entries only, by inductive
--   predicates, and never of a pass.
-- KeyLog models the entries of crates/roam-storage/src/keylog.rs and their signed bytes.
-- Keychain models crates/roam-storage/src/keychain.rs: Keychain.antt has the two passes of
--   Keychain::build over the entries of the key logs, the write head, the plan for reading a payload,
--   diagnose and backfill_targets; its children are named for what they prove. The wraps are those of
--   keywrap.rs (Storage/Keywrap.antt), the payloads those of epoch_crypto.rs
--   (Storage/EpochCrypto.antt).
-- Log models the three append-only files: OpLog (oplog.rs), RosterLog (roster.rs) and KeyLog
--   (keylog.rs). Their verify_text have one loop, Log.verify_text, over the lines of each format.
--   A text is the list of its code points; reading a file gives a FileRead, and an append gives the
--   bytes that the file holds afterwards. A merge takes the entries that these logs verify.
-- Share models crates/roam-share/src/name.rs (Share/Name.antt), payload.rs (Share/Payload.antt) and
--   the receiving session of crates/roam-share-iroh/src/receive.rs: the chunk loop in
--   Share/Receive.antt and the whole session, from the first sealed frame on, in Share/Session.antt.
--   A session is a function from the list of what each read gives to the frames sent, the files
--   written and the result. The human's decision and the file system's refusals are arguments.
--   Share/Sender.antt is the other side, crates/roam-share-iroh/src/send.rs: the frames that answer
--   the receiver's reply, and the loop over connections.
-- Storage models the blob store of crates/roam-storage. Storage/Vfs.antt is the trait VaultFs of
--   vfs.rs as a record of operations on a disk of any type; Storage/Vfs/Memory.antt is MemFs,
--   Storage/Vfs/Reference.antt the abstract file system that MemFs stands for, with what each call of
--   the trait does to it, and Storage/Vfs/Contract.antt the record Promises, what the blob store
--   relies on in a file system whose calls may fail.
--   Storage/Blob.antt has the operations of BlobStore in blob.rs (put, get, has, delete, read_chunk,
--   write_incoming_chunk, finalize_incoming and the rest) over any VaultFs, with the calls in the
--   code's order, so that a failure of each call leaves what was done before it; its theorems are in
--   Storage/Blob/Finished.antt (stored blobs) and Storage/Blob/Incoming.antt (partial ones).
--   Storage/Checkpoint.antt models the planning of checkpoints (checkpoint.rs).
-- Files models the ids of vault files (crates/roam-files/src/path.rs, Files/Path.antt) and the
--   entries of the file-set map (fileset.rs, Files/Entry.antt).
-- Sync models crates/roam-sync-core: the messages (frame.rs, Sync/Frame.antt), the count of chunks
--   that come in (engine.rs, Sync/Chunks.antt), and the engine. Sync/Engine.antt has its state and
--   its bookkeeping; Sync/Engine/Offers.antt, Gossip.antt, Blobs.antt and Admin.antt have its
--   handlers and administrative calls, and Sync/Engine/Handle.antt the dispatch and the run over the
--   frames that come in. A handler takes the engine and gives the engine afterwards with the effects
--   in their order, the frames sent and the signals of a change. The engine reaches the vault
--   through the record StoreCalls, one field for each call of the Store, and the blobs through the
--   functions of Storage/Blob.antt. Sync/Engine/Cases.antt has one lemma for each handler on the
--   branches it takes; the other modules under Sync/Engine are named for what they prove. In
--   Sync/Engine/Reachable.antt the states that an engine comes to are those of a relation, a step
--   being a frame, a call of the embedder or a change of the shared store.
-- Pake.antt models the code that protects a session (crates/roam-pake/src/code.rs) and
--   Backend/Entries.antt the cutting of logs for the backend
--   (crates/roam-backend-client/src/entries.rs).
--
-- Bounds and fuel. The loop that serves a blob runs on one unit of fuel for each byte, which is
--   enough because each chunk has a byte at least.
--   The loop over ever_admin runs on as many rounds of fuel as there are entries and
--   one more: each round but the last adds the subject of an entry. The sender's chunks run on as
--   much fuel as there are bytes, each chunk but the last taking the whole positive size. 64-bit
--   additions that can wrap
--   are written with `% 2 ^ 64`; the lengths in signed bytes keep the low bits that `as` keeps;
--   saturating_add is written out. `usize` has 64 bits.
--
-- Parameters. base64 and ed25519 are the record Log.Crypto with the laws Log.CryptoLaws (decoding
--   what was encoded, 64-byte signatures, a signature verifies under its key); serde_json is
--   Log.Format.LineFormat with LineFormatLaws. Log/Samples.antt has functions with all these laws.
--   Unicode normalization is an argument of container_id, the random numbers of a pairing code are
--   an argument of generate. x25519, XChaCha20-Poly1305 and blake3's key derivation are the record
--   Storage.Keywrap.KeyCrypto with the laws KeyCryptoLaws (both sides of an exchange agree, keys have
--   32 bytes, what was encrypted is decrypted with the same key and nonce).
--
--   The engine's parameters are the calls of the Store, blake3, the versions of the CRDT with their
--   inclusion, the decoding of file-set entries, the check of public keys, and, with each frame or
--   call, which peers the transport can reach then. Where a theorem needs more of them it says so.
--
-- Concurrency. The engine's handlers hold its locks in turn and the embedder runs one at a time, so
--   a handler is one step; changes of the shared store between handlers are steps of their own
--   (Sync/Engine/Reachable.antt). A HashMap of the engine is a map ascending in its keys: the order
--   in which it is run through is not modelled, and only matters for the order of sent frames.
--
-- Not modelled: durability of appends and input/output errors of writing them, the conversion of
--   bytes to UTF-8 text (verify_bytes), timeouts, QUIC, the handshake before a share session, the
--   body of the Store behind the engine's calls, directories and permissions of real file systems,
--   the engine's log lines, and the other crates, which PROJECT.json lists.
pub mod Prelude
pub mod Roster
pub mod KeyLog
pub mod Keychain
pub mod Log
pub mod Share
pub mod Backend
pub mod Pake
pub mod Files
pub mod Sync
pub mod Storage
