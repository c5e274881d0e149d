-- ===== src/Roster/Merge/Privilege.antt =====
-- Who gets a record at all, and what a forged clock can do.
use roam.Prelude.{
  ℕ, ◌≤◌, Option, none, some, List, [], ◌∷◌, ◌≡◌, refl, inl, inr, ◌↔◌, Memᴰ, arith, ◌∙◌, ap, subst,
  Bool-cases, leb,
}
use roam.Roster.Entry.{RosterEntry, PeerRecord, granted_role}
use roam.Roster.Merge.{merge_roster}
use roam.Roster.Merge.Admins.{EverAdmin, IsAdmitted}
use roam.Roster.Merge.Ceilings.{IsGrounded, HasWords}
use roam.Roster.Merge.Meaning.{Decision, ClockOf, some-Ballot}
use roam.Roster.Merge.Records.{merge_roster-IsMeant, merge_roster_of_Ballot}

no_admin : {In : RosterEntry → Type 0} {p : ℕ} → EverAdmin In none p → ⊥
no_admin (EverAdmin.founds e) = absurd (cc)
no_admin (EverAdmin.granted e m g a s) = no_admin a

-- Without a founder nobody is a member, whatever entries with 64-bit clocks there are.
pub merge_roster_unfounded :
    (entries : List RosterEntry) (rs : List PeerRecord)
    → HasWords entries
    → merge_roster entries none ≡ some rs
    → rs ≡ []
merge_roster_unfounded entries [] words merged = refl
merge_roster_unfounded entries (r ∷ rs) words merged =
    let v = merge_roster-IsMeant entries none words merged r (Memᴰ.head refl) in
    absurd (no_admin (v.elected.counted.0).allowed)

-- Below a grounded value the clock has no gap.
grounded_run : {S : ℕ → Type 0} {l : ℕ} (x y : ℕ) → IsGrounded S l → S x → x ≤ y → y ≤ l → S y
grounded_run {S} x y (IsGrounded.floor {l = l} s low) sx a b =
    let e : l ≡ y = omega (arith, low x sx) in subst S e s
grounded_run {S} x y (IsGrounded.next {l = l} {k = k} g s e) sx a b = elim (Bool-cases (leb y l)) [
  | inl le ↦ grounded_run x y g sx a (ground arith)
  | inr gt ↦ let same : k ≡ y = ground arith in subst S same s
]

-- Where all clocks have 64 bits and the merge returns, a peer has a record exactly when some
-- admin, in the sense of the specification, granted it a role.
pub merge_roster_iff :
    (entries : List RosterEntry) (founder : Option ℕ) (rs : List PeerRecord)
    → HasWords entries
    → merge_roster entries founder ≡ some rs
    → (p : ℕ)
    → ((r : PeerRecord) × Memᴰ r rs × (r.peer_id ≡ p))
      ↔ ((e : RosterEntry) × Decision (IsAdmitted entries) founder p e)
merge_roster_iff entries founder rs words merged p = (
  λ (r, m, q).
      let w = (merge_roster-IsMeant entries founder words merged r m).elected in
      (w.entry, subst (λ x. Decision (IsAdmitted entries) founder x w.entry) q w.counted.0),
  λ (e, d).
      let (b, ballot) = some-Ballot entries founder words p e d in
      merge_roster_of_Ballot entries founder words merged p b ballot,
)

-- A forged clock cannot win: the role comes from a decision of an admin whose clock value is
-- reached without a gap from the clock value of every decision below it.
pub role_without_gap :
    (entries : List RosterEntry) (founder : Option ℕ) (rs : List PeerRecord)
    → HasWords entries
    → merge_roster entries founder ≡ some rs
    → (r : PeerRecord) → Memᴰ r rs
    → (e : RosterEntry) × Decision (IsAdmitted entries) founder r.peer_id e
      × (granted_role e.op ≡ some r.role)
      × ((d : RosterEntry) (y : ℕ)
          → Decision (IsAdmitted entries) founder r.peer_id d
          → d.lamport ≤ y
          → y ≤ e.lamport
          → ClockOf (IsAdmitted entries) founder r.peer_id y)
role_without_gap entries founder rs words merged r m =
    let v = merge_roster-IsMeant entries founder words merged r m in
    let w = v.elected in
    let (role, q, made) = w.made in
    let same : r.role ≡ role = v.role ∙ ap (λ g. g.role) made in
    (
      w.entry,
      w.counted.0,
      rw same q,
      λ d y dec a b. grounded_run d.lamport y w.counted.1 (d, dec, refl) a b,
    )
