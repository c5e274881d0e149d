-- ===== src/Sync/Engine/Push.antt =====
-- The live push sends a peer each byte of the own log once.
use mathlib.Core.List.{append-nil, append_assoc}
use roam.Prelude.{
  ℕ, ◌≤◌, true, false, Option, none, some, List, [], ◌∷◌, ◌++◌, length, length-append, drop, leb,
  ◌==◌, ==→eq, if◌then◌else◌, ◌≡◌, refl, arith, ◌∙◌, ap, sym, inl, inr, Bool-cases,
}
use roam.Prelude.Maps.{Above, IsAscending}
use roam.Prelude.Keyed.{find, number_key}
use roam.Sync.Frame.{ops}
use roam.Sync.Engine.{Device, Engine, Effect, send, local_flush, Step, is_empty}
use roam.Sync.Engine.Offers.{suffix_from, pushes_of, advance_all, own_log_of, flush_local}

-- The operations that one effect sends to a peer.
abbrev pub ops_in : (peer : ℕ) → Effect → List ℕ
ops_in peer (send to (ops author jsonl)) = if to == peer then jsonl else []
ops_in peer _ = []

-- All bytes of operations that are sent to a peer, in their order.
abbrev pub ops_sent : (peer : ℕ) → List Effect → List ℕ
ops_sent peer [] = []
ops_sent peer (effect ∷ effects) = ops_in peer effect ++ ops_sent peer effects

ops_sent-append :
    (peer : ℕ) (first second : List Effect)
    → ops_sent peer (first ++ second) ≡ ops_sent peer first ++ ops_sent peer second
ops_sent-append peer [] second = refl
ops_sent-append peer (effect ∷ first) second =
    ap (◌++◌ (ops_in peer effect)) (ops_sent-append peer first second)
    ∙ sym (append_assoc (ops_in peer effect) (ops_sent peer first) (ops_sent peer second))

-- What a peer with this entry is to be sent.
abbrev due : (own_log : List ℕ) → Option ℕ → List ℕ
due own_log none = []
due own_log (some offset) = suffix_from own_log offset

find-Above : {V : Type 0} (b k : ℕ) (m : List (ℕ × V)) → Above b m → k ≤ b → find k m ≡ none
find-Above b k [] h le = refl
find-Above b k ((j, v) ∷ m) h le = ground (arith, find-Above b k m h.1 le)

ops_sent-push :
    (me peer to : ℕ) (suffix : List ℕ) (rest : List Effect)
    → ops_sent peer (if is_empty suffix then rest else send to (ops me suffix) ∷ rest)
      ≡ (if to == peer then suffix else []) ++ ops_sent peer rest
ops_sent-push me peer to [] rest = elim (Bool-cases (to == peer)) [
  | inl t ↦ rw t refl
  | inr f ↦ rw f refl
]
ops_sent-push me peer to (b ∷ bytes) rest = refl

ops_sent-pushes_of :
    (me peer : ℕ) (own_log : List ℕ) (offsets : List (ℕ × ℕ))
    → IsAscending offsets
    → ops_sent peer (pushes_of me own_log offsets) ≡ due own_log (find peer offsets)
ops_sent-pushes_of me peer own_log [] ascending = refl
ops_sent-pushes_of me peer own_log ((to, offset) ∷ offsets) ascending =
    let rest = ops_sent-pushes_of me peer own_log offsets ascending.1 in
    let suffix = suffix_from own_log offset in
    let push = ops_sent-push me peer to suffix (pushes_of me own_log offsets) in
    elim (Bool-cases (peer == to)) [
      | inl e ↦
          let same : (to == peer) ≡ true = ground (arith, e) in
          let none_left : ops_sent peer (pushes_of me own_log offsets) ≡ [] =
            rest
            ∙ ap (due own_log)
                (find-Above to peer offsets ascending.0 (omega (arith, ==→eq peer to e))) in
          push ∙ rw (e, same) (ap (◌++◌ suffix) none_left ∙ append-nil suffix)
      | inr n ↦ let other : (to == peer) ≡ false = ground (arith, n) in push ∙ rw (n, other) rest
    ]

pub find-advance_all :
    (peer end offset : ℕ) (offsets : List (ℕ × ℕ))
    → find peer offsets ≡ some offset
    → find peer (advance_all end offsets) ≡ some end
find-advance_all peer end offset [] h = absurd (ground (arith, h))
find-advance_all peer end offset ((to, o) ∷ offsets) h =
    ground (arith, find-advance_all peer end offset offsets)

advance_all-Above :
    (b end : ℕ) (offsets : List (ℕ × ℕ)) → Above b offsets → Above b (advance_all end offsets)
advance_all-Above b end [] h = tt
advance_all-Above b end ((to, o) ∷ offsets) h = (h.0, advance_all-Above b end offsets h.1)

pub advance_all-IsAscending :
    (end : ℕ) (offsets : List (ℕ × ℕ)) → IsAscending offsets → IsAscending (advance_all end offsets)
advance_all-IsAscending end [] h = tt
advance_all-IsAscending end ((to, o) ∷ offsets) h =
    (advance_all-Above to end offsets h.0, advance_all-IsAscending end offsets h.1)

drop-append : (log more : List ℕ) → drop (length log) (log ++ more) ≡ more
drop-append [] more = refl
drop-append (b ∷ log) more = drop-append log more

suffix_from-append : (log more : List ℕ) → suffix_from (log ++ more) (length log) ≡ more
suffix_from-append log more =
    let fits : leb (length log) (length (log ++ more)) ≡ true =
      ground (arith, length-append log more) in
    rw fits (drop-append log more)

module _ {Vault Keychain Version Disk : Type 0} (device : Device Vault Keychain Version Disk) where
  -- One push brings a peer up to the end of the own log.
  flush_local-sends :
      (peer offset : ℕ) (s : Engine Vault Disk)
      → IsAscending s.sent_offsets
      → find peer s.sent_offsets ≡ some offset
      → (ops_sent peer (flush_local device s).1 ≡ suffix_from (own_log_of device s.vault) offset)
        × (find peer ((flush_local device s).0).sent_offsets
            ≡ some (length (own_log_of device s.vault)))
        × IsAscending ((flush_local device s).0).sent_offsets
  unfolding flush_local
  flush_local-sends peer offset s ascending tracked =
      let own_log = own_log_of device s.vault in
      let pushes = pushes_of device.peer_id own_log s.sent_offsets in
      (
        ops_sent-append peer pushes (local_flush ∷ [])
            ∙ append-nil (ops_sent peer pushes)
            ∙ ops_sent-pushes_of device.peer_id peer own_log s.sent_offsets ascending
            ∙ ap (due own_log) tracked,
        find-advance_all peer (length own_log) offset s.sent_offsets tracked,
        advance_all-IsAscending (length own_log) s.sent_offsets ascending,
      )

  -- The vault after each of some local changes, with the bytes that the change appends to the log.
  abbrev pub Extend : (own_log : List ℕ) → List (Vault × List ℕ) → Type 0
  Extend own_log [] = Unit
  Extend own_log ((vault, more) ∷ changes) =
      (own_log_of device vault ≡ own_log ++ more) × Extend (own_log_of device vault) changes

  abbrev pub flush_each : List (Vault × List ℕ) → Engine Vault Disk → Step Vault Disk
  flush_each [] s = (s, [])
  flush_each ((vault, more) ∷ changes) s =
      let first = flush_local device (record s { vault = vault }) in
      let rest = flush_each changes first.0 in (rest.0, first.1 ++ rest.1)

  abbrev pub appended : List (Vault × List ℕ) → List ℕ
  appended [] = []
  appended ((vault, more) ∷ changes) = more ++ appended changes

  flush_local-vault : (s : Engine Vault Disk) → ((flush_local device s).0).vault ≡ s.vault
  unfolding flush_local
  flush_local-vault s = refl

  -- A peer that has the own log up to its end is sent, by a push after each of any changes that
  -- append to the log, exactly the bytes appended, in their order and each once. The condition is
  -- that the offsets are a map, ascending in the peers.
  pub flush_each-sends :
      (peer : ℕ) (changes : List (Vault × List ℕ)) (own_log : List ℕ) (s : Engine Vault Disk)
      → IsAscending s.sent_offsets
      → find peer s.sent_offsets ≡ some (length own_log)
      → Extend own_log changes
      → ops_sent peer (flush_each changes s).1 ≡ appended changes
  flush_each-sends peer [] own_log s ascending tracked extend = refl
  flush_each-sends peer ((vault, more) ∷ changes) own_log s ascending tracked extend =
      let s1 = record s { vault = vault } in
      let first = flush_local device s1 in
      let rest = flush_each changes first.0 in
      let (sent, tracked', ascending') =
        flush_local-sends peer (length own_log) s1 ascending tracked in
      let here =
        sent
        ∙ ap (λ log. suffix_from log (length own_log)) extend.0
        ∙ suffix_from-append own_log more in
      ops_sent-append peer first.1 rest.1
      ∙ ap (λ xs. xs ++ ops_sent peer rest.1) here
      ∙ ap (◌++◌ more) (
          flush_each-sends peer changes (own_log_of device vault) first.0 ascending' tracked'
            extend.1)
