-- ===== src/Sync/Engine/Tracked.antt =====
-- Connected peers and their offsets: crates/roam-sync-core/src/engine.rs.
use roam.Prelude.{
  ℕ, ◌<◌, true, false, some, List, [], ◌∷◌, ◌==◌, ◌≡◌, refl, arith, ◌∙◌, inl, inr, Bool-cases,
  Option-cases,
}
use roam.Prelude.Maps.{contains, insert, contains-insert, Above, IsAscending, Above-mono}
use roam.Prelude.Keyed.{find, put, delete, number_key, find-put, find-delete}
use roam.Sync.Engine.{Engine}
use roam.Sync.Engine.Offers.{ensure_offset}
use roam.Sync.Engine.Admin.{remove}

module _ {V : Type 0} where
  Above-put : (b k : ℕ) (v : V) (m : List (ℕ × V)) → b < k → Above b m → Above b (put k v m)
  Above-put b k v [] lt h = (lt, tt)
  Above-put b k v ((j, w) ∷ m) lt h = ground (arith, Above-put b k v m lt h.1)

  pub put-IsAscending : (k : ℕ) (v : V) (m : List (ℕ × V)) → IsAscending m → IsAscending (put k v m)
  put-IsAscending k v [] h = (tt, tt)
  put-IsAscending k v ((j, w) ∷ m) h =
      ground (arith, put-IsAscending k v m h.1, Above-mono k j m, Above-put j k v m)

  Above-delete : (b k : ℕ) (m : List (ℕ × V)) → Above b m → Above b (delete k m)
  Above-delete b k [] h = tt
  Above-delete b k ((j, w) ∷ m) h = ground (arith, Above-delete b k m h.1)

  pub delete-IsAscending : (k : ℕ) (m : List (ℕ × V)) → IsAscending m → IsAscending (delete k m)
  delete-IsAscending k [] h = tt
  delete-IsAscending k ((j, w) ∷ m) h =
      ground (arith, delete-IsAscending k m h.1, Above-delete j k m h.0)

contains-remove :
    (x p : ℕ) (xs : List ℕ)
    → contains x (remove p xs) ≡ true
    → ((x == p) ≡ false) × (contains x xs ≡ true)
contains-remove x p [] h = absurd (ground (arith, h))
contains-remove x p (y ∷ xs) h = ground (arith, contains-remove x p xs)

-- Whom the engine counts as connected has an offset, so that the live push reaches him.
abbrev pub AreTracked : (connected : List ℕ) → List (ℕ × ℕ) → Type 0
AreTracked connected offsets =
    (p : ℕ) → contains p connected ≡ true → (offset : ℕ) × (find p offsets ≡ some offset)

abbrev pub IsConsistent : {Vault Disk : Type 0} → Engine Vault Disk → Type 0
IsConsistent s = IsAscending s.sent_offsets × AreTracked s.connected s.sent_offsets

find-put-some :
    (p k v offset : ℕ) (offsets : List (ℕ × ℕ))
    → find p offsets ≡ some offset
    → (o : ℕ) × (find p (put k v offsets) ≡ some o)
find-put-some p k v offset offsets h = elim (Bool-cases (p == k)) [
  | inl e ↦ (v, find-put p k v offsets ∙ rw e refl)
  | inr n ↦ (offset, find-put p k v offsets ∙ rw n h)
]

pub put-AreTracked :
    (k v : ℕ) (connected : List ℕ) (offsets : List (ℕ × ℕ))
    → AreTracked connected offsets
    → AreTracked (insert k connected) (put k v offsets)
put-AreTracked k v connected offsets tracked p h = elim (Bool-cases (p == k)) [
  | inl e ↦ (v, find-put p k v offsets ∙ rw e refl)
  | inr n ↦
      let (offset, at) = tracked p (ground (arith, contains-insert p k connected, h, n)) in
      (offset, find-put p k v offsets ∙ rw n at)
]

pub ensure_offset-AreTracked :
    (k : ℕ) (connected : List ℕ) (offsets : List (ℕ × ℕ))
    → IsAscending offsets
    → AreTracked connected offsets
    → IsAscending (ensure_offset k offsets) × AreTracked connected (ensure_offset k offsets)
unfolding ensure_offset
ensure_offset-AreTracked k connected offsets ascending tracked =
    elim (Option-cases (find k offsets)) [
      | inl e ↦
          rw (ensure_offset, e)
            (
              put-IsAscending k 0 offsets ascending,
              λ p h. let (offset, at) = tracked p h in find-put-some p k 0 offset offsets at,
            )
      | inr (offset, e) ↦ rw (ensure_offset, e) (ascending, tracked)
    ]

pub delete-AreTracked :
    (k : ℕ) (connected : List ℕ) (offsets : List (ℕ × ℕ))
    → AreTracked connected offsets
    → AreTracked (remove k connected) (delete k offsets)
delete-AreTracked k connected offsets tracked p h =
    let (other, old) = contains-remove p k connected h in
    let (offset, at) = tracked p old in (offset, find-delete p k offsets ∙ rw other at)
