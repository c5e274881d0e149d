-- ===== src/Roster/Merge.antt =====
-- `merge_roster` of crates/roam-storage/src/roster.rs, in the order of its passes.
pub mod Admins
pub mod Decisions
pub mod Ceilings
pub mod Election
pub mod Roles
pub mod Keys
pub mod Revocations
pub mod Names
pub mod Output
pub mod Meaning
pub mod Records
pub mod Convergence
pub mod Privilege
use roam.Prelude.{
  ℕ, zero, suc, ◌+◌, ◌%◌, ◌^◌, Bool, true, false, ◌&&◌, ◌||◌, Option, none, some, List, [], ◌∷◌,
  map, length, select, ◌==◌, ltb, leb, if◌then◌else◌,
}
use roam.Prelude.Maps.{contains, insert, lookup, upsert}
use roam.Prelude.Sets.{insert_sorted}
use roam.Roster.Entry.{
  Role, role_min, RosterOp, add, set_role, revoke, set_name, RosterEntry, PeerStatus, PeerRecord,
  derives_peer, granted_role, grants_admin,
}

-- The first pass: who was ever an admin.
unfoldable pub admin_pass : List RosterEntry → List ℕ → List ℕ
admin_pass [] ever_admin = ever_admin
admin_pass (e ∷ es) ever_admin = admin_pass es (
    if grants_admin e.op && contains e.added_by ever_admin
    then insert e.subject_peer ever_admin
    else ever_admin)

-- `loop { … if ever_admin.len() == before { break; } }` on fuel.
unfoldable pub admin_loop : ℕ → List RosterEntry → List ℕ → List ℕ
admin_loop zero valid ever_admin = ever_admin
admin_loop (suc fuel) valid ever_admin =
    let after = admin_pass valid ever_admin in
    let rest = admin_loop fuel valid after in
    if length after == length ever_admin then after else rest

unfoldable pub founder_set : Option ℕ → List ℕ
founder_set none = []
founder_set (some f) = f ∷ []

-- Each round but the last adds the subject of an entry, so one round more than entries is enough.
unfoldable pub ever_admin_of : List RosterEntry → Option ℕ → List ℕ
ever_admin_of valid founder = admin_loop (suc (length valid)) valid (founder_set founder)

-- The second pass: the ceiling of each subject's lamport clock.
abbrev pub add_lamport : ℕ → Option (List ℕ) → List ℕ
add_lamport lamport none = insert_sorted lamport []
add_lamport lamport (some set) = insert_sorted lamport set

unfoldable pub lamports_step : List ℕ → RosterEntry → List (ℕ × List ℕ) → List (ℕ × List ℕ)
lamports_step admins e per_subject =
    if contains e.added_by admins
    then elim (granted_role e.op) [
      | none ↦ per_subject
      | some role ↦ upsert e.subject_peer (add_lamport e.lamport) per_subject
    ]
    else per_subject

unfoldable pub lamports_of : List ℕ → List RosterEntry → List (ℕ × List ℕ) → List (ℕ × List ℕ)
lamports_of admins [] per_subject = per_subject
lamports_of admins (e ∷ es) per_subject = lamports_of admins es (lamports_step admins e per_subject)

-- The loop over `lamports.into_iter().enumerate()`; `ceiling + 1` is a 64-bit addition.
unfoldable pub ceiling_from : ℕ → ℕ → List ℕ → ℕ
ceiling_from i ceiling [] = ceiling
ceiling_from i ceiling (lamport ∷ lamports) =
    let rest = ceiling_from (i + 1) lamport lamports in
    if i == 0 || leb lamport ((ceiling + 1) % 2 ^ 64) then rest else ceiling

unfoldable pub ceilings_of : List (ℕ × List ℕ) → List (ℕ × ℕ) → List (ℕ × ℕ)
ceilings_of [] ceilings = ceilings
ceilings_of ((subject, lamports) ∷ rest) ceilings =
    ceilings_of rest (upsert subject (λ _. ceiling_from 0 0 lamports) ceilings)

-- The third pass.
pub record Grant : Type 0 where
  pub lamport : ℕ
  pub added_by : ℕ
  pub role : Role

pub record Fold : Type 0 where
  pub keys : List (ℕ × List ℕ)
  pub revoked : List ℕ
  pub roles : List (ℕ × Grant)

-- The derived order of `[u8; 32]`.
unfoldable pub bytes_ltb : List ℕ → List ℕ → Bool
bytes_ltb [] [] = false
bytes_ltb [] (b ∷ bs) = true
bytes_ltb (a ∷ as') [] = false
bytes_ltb (a ∷ as') (b ∷ bs) = ltb a b || (a == b && bytes_ltb as' bs)

unfoldable pub keep_key : List ℕ → Option (List ℕ) → List ℕ
keep_key key none = key
keep_key key (some k) = if bytes_ltb key k then key else k

unfoldable pub keep_grant : Grant → Option Grant → Grant
keep_grant cand none = cand
keep_grant cand (some cur) =
    if ltb cur.lamport cand.lamport
      || (cur.lamport == cand.lamport && ltb cur.added_by cand.added_by)
    then cand
    else if cur.lamport == cand.lamport && cur.added_by == cand.added_by
    then record cur { role = role_min cur.role cand.role }
    else cur

abbrev pub grant_of : RosterEntry → Role → Grant
grant_of e role = record { lamport = e.lamport; added_by = e.added_by; role = role }

-- `*ceilings.get(&e.subject_peer).unwrap_or(&0)`
unfoldable pub ceiling_at : List (ℕ × ℕ) → ℕ → ℕ
ceiling_at ceilings subject = elim (lookup subject ceilings) [ none ↦ 0 | some c ↦ c ]

unfoldable pub fold_role : List (ℕ × ℕ) → RosterEntry → Role → List (ℕ × Grant) → List (ℕ × Grant)
fold_role ceilings e role roles =
    if ltb (ceiling_at ceilings e.subject_peer) e.lamport
    then roles
    else upsert e.subject_peer (keep_grant (grant_of e role)) roles

unfoldable pub fold_op : List (ℕ × ℕ) → RosterEntry → RosterOp → Fold → Fold
fold_op ceilings e (add role) st = record st { roles = fold_role ceilings e role st.roles }
fold_op ceilings e (set_role role) st = record st { roles = fold_role ceilings e role st.roles }
fold_op ceilings e revoke st = record st { revoked = insert e.subject_peer st.revoked }
fold_op ceilings e (set_name name) st = st

unfoldable pub fold_entry : List ℕ → List (ℕ × ℕ) → RosterEntry → Fold → Fold
fold_entry admins ceilings e st =
    if contains e.added_by admins
    then fold_op ceilings e e.op
        (record st { keys = upsert e.subject_peer (keep_key e.subject_key) st.keys })
    else st

unfoldable pub fold_entries : List ℕ → List (ℕ × ℕ) → List RosterEntry → Fold → Fold
fold_entries admins ceilings [] st = st
fold_entries admins ceilings (e ∷ es) st =
    fold_entries admins ceilings es (fold_entry admins ceilings e st)

abbrev pub empty_fold : Fold
empty_fold = record { keys = []; revoked = []; roles = [] }

-- The fourth pass: names that devices give themselves.
unfoldable pub keep_name : ℕ → List ℕ → Option (ℕ × List ℕ) → ℕ × List ℕ
keep_name seq name none = (seq, name)
keep_name seq name (some slot) = if leb slot.0 seq then (seq, name) else slot

unfoldable pub name_op : RosterEntry → RosterOp → List (ℕ × (ℕ × List ℕ)) → List (ℕ × (ℕ × List ℕ))
name_op e (set_name name) names =
    if e.added_by == e.subject_peer
    then upsert e.subject_peer (keep_name e.seq name) names
    else names
name_op e _ names = names

unfoldable pub names_of : List RosterEntry → List (ℕ × (ℕ × List ℕ)) → List (ℕ × (ℕ × List ℕ))
names_of [] names = names
names_of (e ∷ es) names = names_of es (name_op e e.op names)

-- The records, one for each subject with a role; `keys[subject]` panics (`none`) on a missing key.
abbrev pub make_record : Fold → List (ℕ × (ℕ × List ℕ)) → ℕ → Grant → List ℕ → PeerRecord
make_record st names subject grant key = record {
  peer_id = subject;
  verifying_key = key;
  status = if contains subject st.revoked then PeerStatus.revoked else PeerStatus.active;
  role = grant.role;
  name = elim (lookup subject names) [ none ↦ none | some slot ↦ some slot.1 ];
}

unfoldable pub record_of : Fold → List (ℕ × (ℕ × List ℕ)) → ℕ → Grant → Option PeerRecord
record_of st names subject grant = elim (lookup subject st.keys) [
  | none ↦ none
  | some key ↦ some (make_record st names subject grant key)
]

unfoldable pub records_of :
    Fold → List (ℕ × (ℕ × List ℕ)) → List (ℕ × Grant) → Option (List PeerRecord)
records_of st names [] = some []
records_of st names ((subject, grant) ∷ roles) = elim (record_of st names subject grant) [
  | none ↦ none
  | some r ↦ elim (records_of st names roles) [ none ↦ none | some rs ↦ some (r ∷ rs) ]
]

-- `sort_by_key`, a stable sort.
unfoldable pub insert_peer : PeerRecord → List PeerRecord → List PeerRecord
insert_peer r [] = r ∷ []
insert_peer r (s ∷ rs) =
    let rest = insert_peer r rs in if leb r.peer_id s.peer_id then r ∷ s ∷ rs else s ∷ rest

unfoldable pub sort_by_peer : List PeerRecord → List PeerRecord
sort_by_peer [] = []
sort_by_peer (r ∷ rs) = insert_peer r (sort_by_peer rs)

unfoldable pub ceilings_for : List ℕ → List RosterEntry → List (ℕ × ℕ)
ceilings_for admins valid = ceilings_of (lamports_of admins valid []) []

unfoldable pub merge_valid : List RosterEntry → List ℕ → Option (List PeerRecord)
merge_valid valid admins =
    let st = fold_entries admins (ceilings_for admins valid) valid empty_fold in
    elim (records_of st (names_of valid []) st.roles) [
      | none ↦ none
      | some out ↦ some (sort_by_peer out)
    ]

unfoldable pub merge_roster : List RosterEntry → Option ℕ → Option (List PeerRecord)
merge_roster entries founder =
    let valid = select derives_peer entries in merge_valid valid (ever_admin_of valid founder)
