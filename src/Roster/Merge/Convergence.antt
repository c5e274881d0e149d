-- ===== src/Roster/Merge/Convergence.antt =====
-- `merge_roster` depends on the set of signed entries alone: not on their order, their repetition,
-- or, for privilege, on the names among them.
use roam.Prelude.{
  ℕ, Bool, true, false, Option, some, List, ◌≡◌, refl, ◌↔◌, Memᴰ, arith, ◌∙◌, ap, sym, subst,
  select, mem-select, mem_of_select, not,
}
use roam.Roster.Entry.{
  Role, RosterEntry, RosterOp, add, set_role, revoke, set_name, PeerRecord, PeerStatus,
  granted_role, grants_admin,
}
use roam.Roster.Merge.{merge_roster}
use roam.Roster.Merge.Admins.{EverAdmin, EverAdmin-mono, IsAdmitted}
use roam.Roster.Merge.Ceilings.{IsGrounded_map, HasWords}
use roam.Roster.Merge.Election.{IsWinner, IsWinner-map, IsWinner-unique}
use roam.Roster.Merge.Keys.{IsLeastKey, IsLeastKey_map, IsLeastKey_unique}
use roam.Roster.Merge.Meaning.{Decision, ClockOf, Ballot, Speaks, Revocation}
use roam.Roster.Merge.Records.{merge_roster-IsMeant, merge_roster_of_Ballot}

-- What two sets of entries must share for equal privilege: their grants and their revocations.
record SamePrivilege (In In' : RosterEntry → Type 0) : Type 0 where
  to : (e : RosterEntry) → In e → ((n : List ℕ) → ¬ (e.op ≡ set_name n)) → In' e
  from : (e : RosterEntry) → In' e → ((n : List ℕ) → ¬ (e.op ≡ set_name n)) → In e

not_name_of_grant :
    (op : RosterOp) {role : Role} → granted_role op ≡ some role → (n : List ℕ) → ¬ (op ≡ set_name n)
not_name_of_grant (add r) h n e = cc
not_name_of_grant (set_role r) h n e = cc
not_name_of_grant revoke h n e = cc
not_name_of_grant (set_name m) h n e = absurd (ground arith)

not_name_of_admin : (op : RosterOp) → grants_admin op ≡ true → (n : List ℕ) → ¬ (op ≡ set_name n)
not_name_of_admin (add r) h n e = cc
not_name_of_admin (set_role r) h n e = cc
not_name_of_admin revoke h n e = cc
not_name_of_admin (set_name m) h n e = absurd (ground arith)

module _ {In In' : RosterEntry → Type 0} (same : SamePrivilege In In') (founder : Option ℕ) where
  admin_to : {p : ℕ} → EverAdmin In founder p → EverAdmin In' founder p
  admin_to (EverAdmin.founds e) = EverAdmin.founds e
  admin_to (EverAdmin.granted e m g a s) =
      EverAdmin.granted e (same.to e m (not_name_of_admin e.op g)) g (admin_to a) s

  Decision-to : (p : ℕ) (e : RosterEntry) → Decision In founder p e → Decision In' founder p e
  Decision-to p e d = record {
    counted = same.to e d.counted (not_name_of_grant e.op d.grants);
    allowed = admin_to d.allowed;
    about = d.about;
    role = d.role;
    grants = d.grants;
  }

swap : {In In' : RosterEntry → Type 0} → SamePrivilege In In' → SamePrivilege In' In
swap same = record { to = same.from; from = same.to }

module _ {In In' : RosterEntry → Type 0} (same : SamePrivilege In In') (founder : Option ℕ) where
  Clock-to : (p l : ℕ) → ClockOf In founder p l → ClockOf In' founder p l
  Clock-to p l (e, d, q) = (e, Decision-to same founder p e d, q)

  Clock-from : (p l : ℕ) → ClockOf In' founder p l → ClockOf In founder p l
  Clock-from p l (e, d, q) = (e, Decision-to (swap same) founder p e d, q)

  Ballot-to : (p : ℕ) (e : RosterEntry) → Ballot In founder p e → Ballot In' founder p e
  Ballot-to p e (d, g) =
      (Decision-to same founder p e d, IsGrounded_map (Clock-to p) (Clock-from p) g)

  Revocation-to : (p : ℕ) → Revocation In founder p → Revocation In' founder p
  Revocation-to p (e, (c, a, q), r) = (e, (same.to e c (λ n k. cc), admin_to same founder a, q), r)

-- Two statuses that are revoked together are equal.
status_ext :
    (s t : PeerStatus)
    → (s ≡ PeerStatus.revoked → t ≡ PeerStatus.revoked)
    → (t ≡ PeerStatus.revoked → s ≡ PeerStatus.revoked)
    → s ≡ t
status_ext PeerStatus.active PeerStatus.active h k = refl
status_ext PeerStatus.active PeerStatus.revoked h k = k refl
status_ext PeerStatus.revoked t h k = sym (h refl)

module _ {entries entries' : List RosterEntry} (founder : Option ℕ) (words : HasWords entries)
    (words' : HasWords entries') {rs rs' : List PeerRecord}
    (merged : merge_roster entries founder ≡ some rs)
    (merged' : merge_roster entries' founder ≡ some rs')
    (same : SamePrivilege (IsAdmitted entries) (IsAdmitted entries')) where
  -- The record of the same peer on the other side.
  counterpart :
      (r : PeerRecord) → Memᴰ r rs → (r' : PeerRecord) × Memᴰ r' rs' × (r'.peer_id ≡ r.peer_id)
  counterpart r m =
      let w = (merge_roster-IsMeant entries founder words merged r m).elected in
      merge_roster_of_Ballot entries' founder words' merged' r.peer_id w.entry
        (Ballot-to same founder r.peer_id w.entry w.counted)

  same_role_status :
      (r r' : PeerRecord)
      → Memᴰ r rs
      → Memᴰ r' rs'
      → r'.peer_id ≡ r.peer_id
      → (r'.role ≡ r.role) × (r'.status ≡ r.status)
  same_role_status r r' m m' q =
      let v = merge_roster-IsMeant entries founder words merged r m in
      let v' = merge_roster-IsMeant entries' founder words' merged' r' m' in
      let w =
        IsWinner-map (Ballot-to same founder r.peer_id) (Ballot-to (swap same) founder r.peer_id)
          v.elected in
      let w' =
        subst (λ p. IsWinner (Ballot (IsAdmitted entries') founder p) v'.grant) q v'.elected in
      let one : v'.grant ≡ v.grant = IsWinner-unique v'.grant v.grant w' w in
      (
        v'.role ∙ ap (λ g. g.role) one ∙ sym v.role,
        status_ext r'.status r.status
            (λ h. v.status.1 (
              Revocation-to (swap same) founder r.peer_id
                (subst (Revocation (IsAdmitted entries') founder) q (v'.status.0 h))))
            (λ h. v'.status.1 (
              subst (Revocation (IsAdmitted entries') founder) (sym q)
                (Revocation-to same founder r.peer_id (v.status.0 h)))),
      )

-- Every record on the left has one on the right that agrees on what the relation names.
abbrev pub Covers : (PeerRecord → PeerRecord → Type 0) → List PeerRecord → List PeerRecord → Type 0
Covers R rs rs' = (r : PeerRecord) → Memᴰ r rs → (r' : PeerRecord) × Memᴰ r' rs' × R r r'

abbrev pub SameAccess : PeerRecord → PeerRecord → Type 0
SameAccess r r' = (r'.peer_id ≡ r.peer_id) × (r'.role ≡ r.role) × (r'.status ≡ r.status)

abbrev pub SameAccessAndKey : PeerRecord → PeerRecord → Type 0
SameAccessAndKey r r' = SameAccess r r' × (r'.verifying_key ≡ r.verifying_key)

Covers-access :
    {entries entries' : List RosterEntry} (founder : Option ℕ)
    → HasWords entries
    → HasWords entries'
    → {rs rs' : List PeerRecord} → merge_roster entries founder ≡ some rs
    → merge_roster entries' founder ≡ some rs'
    → SamePrivilege (IsAdmitted entries) (IsAdmitted entries')
    → Covers SameAccess rs rs'
Covers-access founder words words' merged merged' same r m =
    let (r', m', q) = counterpart founder words words' merged merged' same r m in
    let (role, status) = same_role_status founder words words' merged merged' same r r' m m' q in
    (r', m', (q, role, status))

abbrev pub is_set_name : RosterOp → Bool
is_set_name (set_name n) = true
is_set_name (add r) = false
is_set_name (set_role r) = false
is_set_name revoke = false

abbrev pub without_names : List RosterEntry → List RosterEntry
without_names es = select (λ e. not (is_set_name e.op)) es

without_names-SamePrivilege :
    (entries : List RosterEntry)
    → SamePrivilege (IsAdmitted entries) (IsAdmitted (without_names entries))
without_names-SamePrivilege entries = record {
  to = λ e c unnamed.
      (mem-select (λ d. not (is_set_name d.op)) entries c.0 (plain e.op unnamed), c.1);
  from = λ e c unnamed. ((mem_of_select (λ d. not (is_set_name d.op)) entries c.0).0, c.1);
}
  where
    plain : (op : RosterOp) → ((n : List ℕ) → ¬ (op ≡ set_name n)) → not (is_set_name op) ≡ true
    plain (set_name n) h = absurd (h n refl)
    plain (add r) h = refl
    plain (set_role r) h = refl
    plain revoke h = refl

without_names-words :
    (entries : List RosterEntry) → HasWords entries → HasWords (without_names entries)
without_names-words entries words e m =
    words e (mem_of_select (λ d. not (is_set_name d.op)) entries m).0

-- Names never change who is a member, in which role, or whether revoked: where all clocks have 64
-- bits, the merge without the SetName entries returns records of the same peers with the same
-- roles and statuses.
pub merge_roster-without_names :
    (entries : List RosterEntry) (founder : Option ℕ)
    → HasWords entries
    → (rs rs' : List PeerRecord) → merge_roster entries founder ≡ some rs
    → merge_roster (without_names entries) founder ≡ some rs'
    → Covers SameAccess rs rs' × Covers SameAccess rs' rs
merge_roster-without_names entries founder words rs rs' merged merged' =
    let words' = without_names-words entries words in
    let same = without_names-SamePrivilege entries in
    (
      Covers-access founder words words' merged merged' same,
      Covers-access founder words' words merged' merged (swap same),
    )

abbrev pub HasSameEntries : List RosterEntry → List RosterEntry → Type 0
HasSameEntries es es' = (e : RosterEntry) → Memᴰ e es ↔ Memᴰ e es'

HasSameEntries-SamePrivilege :
    {es es' : List RosterEntry}
    → HasSameEntries es es'
    → SamePrivilege (IsAdmitted es) (IsAdmitted es')
HasSameEntries-SamePrivilege same = record {
  to = λ e c _. ((same e).0 c.0, c.1);
  from = λ e c _. ((same e).1 c.0, c.1);
}

Covers-key :
    {es es' : List RosterEntry} (founder : Option ℕ)
    → HasWords es
    → HasWords es'
    → {rs rs' : List PeerRecord} → merge_roster es founder ≡ some rs
    → merge_roster es' founder ≡ some rs'
    → HasSameEntries es es'
    → Covers SameAccessAndKey rs rs'
Covers-key {es} {es'} founder words words' merged merged' same r m =
    let (r', m', access) =
      Covers-access founder words words' merged merged' (HasSameEntries-SamePrivilege same) r m in
    let v = merge_roster-IsMeant es founder words merged r m in
    let v' = merge_roster-IsMeant es' founder words' merged' r' m' in
    let to : (e : RosterEntry) → IsAdmitted es e → IsAdmitted es' e =
      λ e c. ((same e).0 c.0, c.1) in
    let from : (e : RosterEntry) → IsAdmitted es' e → IsAdmitted es e =
      λ e c. ((same e).1 c.0, c.1) in
    let k' =
      subst (λ p. IsLeastKey (Speaks (IsAdmitted es') founder p) r'.verifying_key) access.0
        v'.key in
    let k =
      IsLeastKey_map {In' = Speaks (IsAdmitted es') founder r.peer_id}
        (λ e s. (to e s.0, EverAdmin-mono to s.1, s.2))
        (λ e s. (from e s.0, EverAdmin-mono from s.1, s.2)) v.key in
    (r', m', (access, IsLeastKey_unique r'.verifying_key r.verifying_key k' k))

-- Replicas converge: two lists of the same signed entries with 64-bit clocks, in any order and
-- with any repetitions, merge to records of the same peers with the same keys, roles and statuses.
pub merge_roster-set :
    (entries entries' : List RosterEntry) (founder : Option ℕ)
    → HasWords entries
    → HasWords entries'
    → HasSameEntries entries entries'
    → (rs rs' : List PeerRecord) → merge_roster entries founder ≡ some rs
    → merge_roster entries' founder ≡ some rs'
    → Covers SameAccessAndKey rs rs' × Covers SameAccessAndKey rs' rs
merge_roster-set entries entries' founder words words' same rs rs' merged merged' = (
  Covers-key founder words words' merged merged' same,
  Covers-key founder words' words merged' merged (λ e. ((same e).1, (same e).0)),
)

-- Revocation is terminal: whatever entries with 64-bit clocks are added, in whatever order, a
-- record of a peer that was merged as revoked is again revoked.
pub revoked_stays :
    (entries more : List RosterEntry) (founder : Option ℕ)
    → HasWords entries
    → HasWords more
    → ((e : RosterEntry) → Memᴰ e entries → Memᴰ e more)
    → (rs rs' : List PeerRecord) → merge_roster entries founder ≡ some rs
    → merge_roster more founder ≡ some rs'
    → (r r' : PeerRecord) → Memᴰ r rs
    → Memᴰ r' rs'
    → r.status ≡ PeerStatus.revoked
    → r'.peer_id ≡ r.peer_id
    → r'.status ≡ PeerStatus.revoked
revoked_stays entries more founder words words' grows rs rs' merged merged' r r' m m' dead q =
    let v = merge_roster-IsMeant entries founder words merged r m in
    let v' = merge_roster-IsMeant more founder words' merged' r' m' in
    let wider : (e : RosterEntry) → IsAdmitted entries e → IsAdmitted more e =
      λ e c. (grows e c.0, c.1) in
    let (e, (c, a, s), o) = v.status.0 dead in
    v'.status.1 (
      subst (Revocation (IsAdmitted more) founder) (sym q)
        (e, (wider e c, EverAdmin-mono wider a, s), o))
