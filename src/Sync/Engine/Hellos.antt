-- ===== src/Sync/Engine/Hellos.antt =====
-- The greetings among effects: crates/roam-sync-core/src/engine.rs.
use roam.Prelude.{
  ℕ, ◌+◌, ◌≤◌, Bool, true, false, ◌||◌, List, [], ◌∷◌, ◌++◌, ◌==◌, ==→eq, ◌≡◌, refl, arith, ◌∙◌,
  inl, inr, Bool-cases,
}
use roam.Prelude.Maps.{contains, insert, contains-insert}
use roam.Sync.Frame.{hello, ops, keylog_ops}
use roam.Sync.Engine.{Effect, send}
use roam.Sync.Engine.Offers.{send_logs}
use roam.Sync.Engine.Gossip.{signal_if}

abbrev pub one_if : Bool → ℕ
one_if true = 1
one_if false = 0

abbrev pub greets : (peer : ℕ) → Effect → Bool
greets peer (send other (hello vault)) = other == peer
greets peer _ = false

-- How many greetings are sent to a peer.
abbrev pub hellos : (peer : ℕ) → List Effect → ℕ
hellos peer [] = 0
hellos peer (effect ∷ effects) = one_if (greets peer effect) + hellos peer effects

module _ (peer : ℕ) where
  pub hellos-append :
      (xs ys : List Effect) → hellos peer (xs ++ ys) ≡ hellos peer xs + hellos peer ys
  hellos-append [] ys = omega arith
  hellos-append (x ∷ xs) ys = omega (arith, hellos-append xs ys)

  pub hellos-ops : (to : ℕ) (logs : List (ℕ × List ℕ)) → hellos peer (send_logs ops to logs) ≡ 0
  hellos-ops to [] = refl
  hellos-ops to ((author, jsonl) ∷ logs) = omega (arith, hellos-ops to logs)

  pub hellos-keylog_ops :
      (to : ℕ) (logs : List (ℕ × List ℕ)) → hellos peer (send_logs keylog_ops to logs) ≡ 0
  hellos-keylog_ops to [] = refl
  hellos-keylog_ops to ((author, jsonl) ∷ logs) = omega (arith, hellos-keylog_ops to logs)

  pub hellos-signal_if : (b : Bool) → hellos peer (signal_if b) ≡ 0
  hellos-signal_if true = refl
  hellos-signal_if false = refl

-- No peer is named twice.
abbrev pub IsUnique : List ℕ → Type 0
IsUnique [] = Unit
IsUnique (x ∷ xs) = (contains x xs ≡ false) × IsUnique xs

-- The peers to meet are not connected, and none of them comes twice.
abbrev pub AreNew : List (ℕ × List ℕ) → (connected : List ℕ) → Type 0
AreNew [] connected = Unit
AreNew ((peer, key) ∷ peers) connected =
    (contains peer connected ≡ false) × AreNew peers (insert peer connected)

pub AreNew-mono :
    (peers : List (ℕ × List ℕ)) (more less : List ℕ)
    → ((x : ℕ) → contains x more ≡ false → contains x less ≡ false)
    → AreNew peers more
    → AreNew peers less
AreNew-mono [] more less h new = tt
AreNew-mono ((peer, key) ∷ peers) more less h new = (
  h peer new.0,
  AreNew-mono peers (insert peer more) (insert peer less)
      (λ x absent.
        let more_in = contains-insert x peer more in
        contains-insert x peer less ∙ ground (arith, more_in, absent, h x))
      new.1,
)

-- The count of a step that greets one peer, who was not connected and now is.
pub once-le :
    (peer to n : ℕ) (connected now : List ℕ)
    → n ≡ one_if (to == peer)
    → contains to connected ≡ false
    → contains peer now ≡ (peer == to || contains peer connected)
    → n + one_if (contains peer connected) ≤ one_if (contains peer now)
once-le peer to n connected now count new at = elim (Bool-cases (to == peer)) [
  | inl e ↦
      let absent : contains peer connected ≡ false = rw (← ==→eq to peer e) new in
      let self : (peer == to) ≡ true = ground (arith, e) in
      ground (arith, count, e, absent, at, self)
  | inr ne ↦
      let self : (peer == to) ≡ false = ground (arith, ne) in ground (arith, count, ne, at, self)
]
