-- ===== src/Keychain/Epochs.antt =====
-- What the two passes of `Keychain::build` in crates/roam-storage/src/keychain.rs keep of every
-- epoch.
use roam.Prelude.{
  ℕ, none, some, List, [], ◌∷◌, ◌≡◌, refl, arith, ◌∙◌, sym, subst, Memᴰ, inl, inr, Bool-cases,
  Option-cases,
}
use roam.Prelude.Keyed.{find, put, find-put, text_key}
use roam.Prelude.Trim.{same_text, same_text→eq}
use roam.KeyLog.{Recipient, KeyBody, rotate, wrap, KeyLogEntry}
use roam.Storage.Keywrap.{KeyCrypto}
use roam.Keychain.{
  EpochNode, Epochs, or_insert, announced, announce, announce_all, add_recipient, receive_wrap,
  receive_all,
}

abbrev pub Forall : (List ℕ → EpochNode → Type 0) → Epochs → Type 0
Forall P epochs = (id : List ℕ) (node : EpochNode) → find id epochs ≡ some node → P id node

pub Forall-put :
    (P : List ℕ → EpochNode → Type 0) (k : List ℕ) (v : EpochNode) (epochs : Epochs)
    → Forall P epochs
    → P k v
    → Forall P (put k v epochs)
Forall-put P k v epochs h p id node at = elim (Bool-cases (same_text id k)) [
  | inl e ↦
      let here : some v ≡ some node = rw e at (sym (find-put id k v epochs) ∙ at) in
      let same : v ≡ node = ground (arith, here) in rw (same_text→eq id k e) (subst (P k) same p)
  | inr n ↦ h id node (rw n at (sym (find-put id k v epochs) ∙ at))
]

-- An entry that announces an epoch.
abbrev pub Announces : KeyLogEntry → List ℕ → EpochNode → Type 0
Announces e id node =
    (e.epoch_id ≡ id) × (e.author ≡ node.minted_by) × (e.body ≡ rotate node.parents node.nonce)

announce-Forall :
    (P : List ℕ → EpochNode → Type 0) (e : KeyLogEntry) (epochs : Epochs)
    → ((parents : List (List ℕ)) (nonce : List ℕ)
        → e.body ≡ rotate parents nonce
        → P e.epoch_id (announced e parents nonce))
    → Forall P epochs
    → Forall P (announce e epochs)
unfolding announce
announce-Forall P e epochs fresh h = by e.body refl
  where
    by :
        (body : KeyBody)
        → e.body ≡ body
        → Forall P (elim body [
          | rotate parents nonce ↦ or_insert e.epoch_id (announced e parents nonce) epochs
          | wrap recipient blob ↦ epochs
        ])
    by (wrap recipient blob) eq = h
    by (rotate parents nonce) eq = elim (Option-cases (find e.epoch_id epochs)) [
      | inl unknown ↦
          rw (or_insert, unknown)
            (Forall-put P e.epoch_id (announced e parents nonce) epochs h (fresh parents nonce eq))
      | inr (old, known) ↦ rw (or_insert, known) h
    ]

pub announce_all-Forall :
    (P : List ℕ → EpochNode → Type 0) (es : List KeyLogEntry) (epochs : Epochs)
    → ((e : KeyLogEntry) (parents : List (List ℕ)) (nonce : List ℕ)
        → Memᴰ e es
        → e.body ≡ rotate parents nonce
        → P e.epoch_id (announced e parents nonce))
    → Forall P epochs
    → Forall P (announce_all es epochs)
announce_all-Forall P [] epochs fresh h = h
announce_all-Forall P (e ∷ es) epochs fresh h =
    announce_all-Forall P es (announce e epochs)
      (λ d parents nonce m. fresh d parents nonce (Memᴰ.tail m))
      (announce-Forall P e epochs (λ parents nonce. fresh e parents nonce (Memᴰ.head refl)) h)

module _ (crypto : KeyCrypto) (blake3 : List ℕ → List ℕ) (self_peer : ℕ) (secret : List ℕ) where
  receive_wrap-Forall :
      (P : List ℕ → EpochNode → Type 0) (e : KeyLogEntry) (epochs : Epochs)
      → ((node : EpochNode) (recipient : Recipient) (blob : List ℕ)
          → e.body ≡ wrap recipient blob
          → P e.epoch_id node
          → P e.epoch_id
              (add_recipient crypto blake3 self_peer secret e.epoch_id recipient blob node))
      → Forall P epochs
      → Forall P (receive_wrap crypto blake3 self_peer secret e epochs)
  unfolding receive_wrap
  receive_wrap-Forall P e epochs stable h = by e.body refl
    where
      by :
          (body : KeyBody)
          → e.body ≡ body
          → Forall P (elim body [
            | rotate parents nonce ↦ epochs
            | wrap recipient blob ↦ elim (find e.epoch_id epochs) [
              | none ↦ epochs
              | some node ↦
                  put e.epoch_id
                    (add_recipient crypto blake3 self_peer secret e.epoch_id recipient blob node)
                    epochs
            ]
          ])
      by (rotate parents nonce) eq = h
      by (wrap recipient blob) eq = elim (Option-cases (find e.epoch_id epochs)) [
        | inl unknown ↦ rw unknown h
        | inr (old, known) ↦ rw known (
            Forall-put P e.epoch_id
              (add_recipient crypto blake3 self_peer secret e.epoch_id recipient blob old) epochs h
              (stable old recipient blob eq (h e.epoch_id old known)))
      ]

  -- What holds of every epoch, and goes on holding with each recipient, holds after the second pass.
  pub receive_all-Forall :
      (P : List ℕ → EpochNode → Type 0) (es : List KeyLogEntry) (epochs : Epochs)
      → ((id : List ℕ) (node : EpochNode) (recipient : Recipient) (blob : List ℕ)
          → P id node
          → P id (add_recipient crypto blake3 self_peer secret id recipient blob node))
      → Forall P epochs
      → Forall P (receive_all crypto blake3 self_peer secret es epochs)
  receive_all-Forall P [] epochs stable h = h
  receive_all-Forall P (e ∷ es) epochs stable h =
      receive_all-Forall P es (receive_wrap crypto blake3 self_peer secret e epochs) stable (
        receive_wrap-Forall P e epochs
          (λ node recipient blob eq. stable e.epoch_id node recipient blob) h)
