-- ===== src/Keychain.antt =====
-- The keychain: crates/roam-storage/src/keychain.rs. It folds the verified entries of the key logs
-- into the epochs of the vault, and says which key to read and to write with.

pub mod Epochs
pub mod Commitment
pub mod Reading
pub mod Head
pub mod Tests
use roam.Prelude.{
  ℕ, Bool, true, false, not, ◌&&◌, ◌||◌, Option, none, some, List, [], ◌∷◌, ◌++◌, map, length, take,
  replicate, select, any, ltb, leb, ◌==◌, if◌then◌else◌,
}
use roam.Prelude.Bytes.{to_le_bytes}
use roam.Prelude.Outcomes.{err, ok}
use roam.Prelude.Keyed.{find, put, text_key, text_before}
use roam.Prelude.Trim.{same_text}
use roam.Roster.Entry.{PeerStatus, active, revoked, PeerRecord}
use roam.KeyLog.{Recipient, device, paper, KeyBody, rotate, wrap, KeyLogEntry, concat}
use roam.Storage.Keywrap.{KeyCrypto, unwrap}

-- `EPOCH0_ID`
abbrev pub epoch0_id : List ℕ
epoch0_id = replicate 32 0

pub record SecretKey : Type 0 where
  pub bytes : List ℕ

-- `wrapped_to` is ascending.
pub record EpochNode : Type 0 where
  pub parents : List (List ℕ)
  pub minted_by : ℕ
  pub nonce : List ℕ
  pub key : Option SecretKey
  pub wrapped_to : List ℕ
  pub wrapped_paper : Bool

-- A map ascending in the epochs' ids.
abbrev pub Epochs : Type 0
Epochs = List (List ℕ × EpochNode)

pub record Keychain : Type 0 where
  pub id_key : SecretKey
  pub epochs : Epochs
  pub head : List ℕ

pub data VaultIssue : Type 0 where
  waiting_key : (epoch : List ℕ) (candidates : List ℕ) → VaultIssue
  key_orphaned : (epoch : List ℕ) → VaultIssue
  key_redundancy_low : (epoch : List ℕ) (holders : List ℕ) → VaultIssue

pub record ReadPlan : Type 0 where
  pub epoch : List ℕ
  pub key : Option SecretKey
  pub body_offset : ℕ

-- `BTreeSet::insert`
abbrev pub insert_ordered : ℕ → List ℕ → List ℕ
insert_ordered p [] = p ∷ []
insert_ordered p (q ∷ qs) =
    let rest = insert_ordered p qs in
    if p == q then q ∷ qs else if ltb p q then p ∷ q ∷ qs else q ∷ rest

-- `Option::is_none`
abbrev pub is_none : Option SecretKey → Bool
is_none none = true
is_none (some key) = false

module _ (blake3 : List ℕ → List ℕ) where
  unfoldable pub compute_epoch_id :
      (parents : List (List ℕ)) (minted_by : ℕ) (nonce key : List ℕ) → List ℕ
  compute_epoch_id parents minted_by nonce key =
      blake3 (concat parents ++ (to_le_bytes 8 minted_by ++ (nonce ++ key)))

  -- The id that a node commits to with a key.
  abbrev pub id_with : EpochNode → List ℕ → List ℕ
  id_with node key = compute_epoch_id node.parents node.minted_by node.nonce key

  unfoldable pub key_matches_epoch : Keychain → (epoch key : List ℕ) → Bool
  key_matches_epoch chain epoch key =
      if same_text epoch epoch0_id then false else elim (find epoch chain.epochs) [
        | none ↦ false
        | some node ↦ same_text (id_with node key) epoch
      ]

abbrev pub genesis : (epoch0_key : List ℕ) → EpochNode
genesis epoch0_key = record {
  parents = [];
  minted_by = 0;
  nonce = replicate 32 0;
  key = some (record { bytes = epoch0_key });
  wrapped_to = [];
  wrapped_paper = false;
}

-- `entry(id).or_insert(node)`
abbrev pub or_insert : List ℕ → EpochNode → Epochs → Epochs
or_insert id node epochs = elim (find id epochs) [ none ↦ put id node epochs | some old ↦ epochs ]

abbrev pub announced : KeyLogEntry → List (List ℕ) → (nonce : List ℕ) → EpochNode
announced e parent_epochs nonce = record {
  parents = parent_epochs;
  minted_by = e.author;
  nonce = nonce;
  key = none;
  wrapped_to = [];
  wrapped_paper = false;
}

-- The first pass at one entry.
unfoldable pub announce : KeyLogEntry → Epochs → Epochs
announce e epochs = elim e.body [
  | rotate parent_epochs nonce ↦ or_insert e.epoch_id (announced e parent_epochs nonce) epochs
  | wrap recipient blob ↦ epochs
]

abbrev pub announce_all : List KeyLogEntry → Epochs → Epochs
announce_all [] epochs = epochs
announce_all (e ∷ es) epochs = announce_all es (announce e epochs)

abbrev pub parents_of : Epochs → List (List ℕ)
parents_of [] = []
parents_of ((id, node) ∷ epochs) = node.parents ++ parents_of epochs

abbrev pub leaves : Epochs → List (List ℕ)
leaves epochs =
    select (λ id. not (any (λ parent. same_text id parent) (parents_of epochs)))
      (map (λ entry. entry.0) epochs)

-- `Iterator::min`
abbrev pub least : List (List ℕ) → Option (List ℕ)
least [] = none
least (id ∷ ids) = elim (least ids) [
  | none ↦ some id
  | some other ↦ some (if text_before other id then other else id)
]

abbrev pub or_epoch0 : Option (List ℕ) → List ℕ
or_epoch0 none = epoch0_id
or_epoch0 (some id) = id

unfoldable pub select_head : Epochs → List ℕ
select_head epochs = or_epoch0 (least (leaves epochs))

abbrev pub heads_or_epoch0 : List (List ℕ) → List (List ℕ)
heads_or_epoch0 [] = epoch0_id ∷ []
heads_or_epoch0 (id ∷ ids) = id ∷ ids

unfoldable pub dag_heads : Keychain → List (List ℕ)
dag_heads chain = heads_or_epoch0 (leaves chain.epochs)

-- The device that builds a keychain: its id and its secret for unwrapping.
module _ (crypto : KeyCrypto) (blake3 : List ℕ → List ℕ) (self_peer : ℕ) (secret : List ℕ) where
  -- The key in a wrap, if it is the one that the epoch's id commits to.
  unfoldable pub unwrapped : (epoch_id blob : List ℕ) → EpochNode → Option SecretKey
  unwrapped epoch_id blob node = elim (unwrap crypto secret blob) [
    | err e ↦ none
    | ok key ↦
        if same_text (id_with blake3 node key) epoch_id then some (record { bytes = key }) else none
  ]

  unfoldable pub add_recipient : (epoch_id : List ℕ) → Recipient → List ℕ → EpochNode → EpochNode
  add_recipient epoch_id paper blob node = record node { wrapped_paper = true }
  add_recipient epoch_id (device peer) blob node =
      let node1 = record node { wrapped_to = insert_ordered peer node.wrapped_to } in
      if peer == self_peer && is_none node.key
      then record node1 { key = unwrapped epoch_id blob node }
      else node1

  -- The second pass at one entry.
  unfoldable pub receive_wrap : KeyLogEntry → Epochs → Epochs
  receive_wrap e epochs = elim e.body [
    | rotate parent_epochs nonce ↦ epochs
    | wrap recipient blob ↦ elim (find e.epoch_id epochs) [
      | none ↦ epochs
      | some node ↦ put e.epoch_id (add_recipient e.epoch_id recipient blob node) epochs
    ]
  ]

  abbrev pub receive_all : List KeyLogEntry → Epochs → Epochs
  receive_all [] epochs = epochs
  receive_all (e ∷ es) epochs = receive_all es (receive_wrap e epochs)

  abbrev pub epochs_of : (epoch0_key : List ℕ) → List KeyLogEntry → Epochs
  epochs_of epoch0_key entries =
      receive_all entries (announce_all entries (put epoch0_id (genesis epoch0_key) []))

  unfoldable pub build : (id_key epoch0_key : List ℕ) → List KeyLogEntry → Keychain
  build id_key epoch0_key entries = record {
    id_key = record { bytes = id_key };
    epochs = epochs_of epoch0_key entries;
    head = select_head (epochs_of epoch0_key entries);
  }

abbrev pub key_of : Option EpochNode → Option SecretKey
key_of none = none
key_of (some node) = node.key

unfoldable pub epoch_key : Keychain → (epoch : List ℕ) → Option SecretKey
epoch_key chain epoch = key_of (find epoch chain.epochs)

unfoldable pub head_write_key : Keychain → Option (List ℕ × SecretKey)
head_write_key chain = elim (epoch_key chain chain.head) [
  | none ↦ none
  | some key ↦ some (chain.head, key)
]

abbrev pub legacy_plan : Keychain → ReadPlan
legacy_plan chain = record { epoch = epoch0_id; key = epoch_key chain epoch0_id; body_offset = 0 }

unfoldable pub classify : Keychain → (payload : List ℕ) → ReadPlan
classify chain payload =
    let prefix = take 32 payload in
    if leb 32 (length payload) && not (same_text prefix epoch0_id)
    then elim (find prefix chain.epochs) [
      | none ↦ legacy_plan chain
      | some node ↦ record { epoch = prefix; key = node.key; body_offset = 32 }
    ]
    else legacy_plan chain

abbrev pub is_active : PeerRecord → Bool
is_active peer = elim peer.status [ active ↦ true | revoked ↦ false ]

abbrev pub is_listed : List PeerRecord → ℕ → Bool
is_listed roster peer = any (λ p. p.peer_id == peer && is_active p) roster

-- What is wrong with the key of one epoch.
unfoldable pub issues_of : List PeerRecord → (epoch : List ℕ) → EpochNode → List VaultIssue
issues_of roster epoch node =
    let live_holders = select (is_listed roster) node.wrapped_to in
    let uncovered = length live_holders == 0 && not node.wrapped_paper in
    if is_none node.key
    then (if uncovered then key_orphaned epoch else waiting_key epoch live_holders) ∷ []
    else if length live_holders == 1 && not node.wrapped_paper
    then key_redundancy_low epoch live_holders ∷ []
    else []

abbrev pub issues_from : List PeerRecord → Epochs → List VaultIssue
issues_from roster [] = []
issues_from roster ((epoch, node) ∷ epochs) =
    issues_of roster epoch node ++ issues_from roster epochs

unfoldable pub diagnose : Keychain → List PeerRecord → List VaultIssue
diagnose chain roster = issues_from roster chain.epochs

pub record Target : Type 0 where
  pub epoch : List ℕ
  pub key : SecretKey
  pub recipient : ℕ

abbrev pub lacks_wrap : EpochNode → PeerRecord → Bool
lacks_wrap node peer = is_active peer && not (any (λ p. p == peer.peer_id) node.wrapped_to)

unfoldable pub targets_of : List PeerRecord → (epoch : List ℕ) → EpochNode → List Target
targets_of roster epoch node = if same_text epoch epoch0_id then [] else elim node.key [
  | none ↦ []
  | some key ↦
      map (λ peer. record { epoch = epoch; key = key; recipient = peer.peer_id })
        (select (lacks_wrap node) roster)
]

abbrev pub targets_from : List PeerRecord → Epochs → List Target
targets_from roster [] = []
targets_from roster ((epoch, node) ∷ epochs) =
    targets_of roster epoch node ++ targets_from roster epochs

unfoldable pub backfill_targets : Keychain → List PeerRecord → List Target
backfill_targets chain roster = targets_from roster chain.epochs
