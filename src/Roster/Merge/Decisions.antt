-- ===== src/Roster/Merge/Decisions.antt =====
-- The decisions about one subject: the entries that the second and the third pass of `merge_roster`
-- read for it.
use roam.Prelude.{
  ℕ, Bool, true, false, ◌&&◌, none, some, List, [], ◌∷◌, select, mem-select, mem_of_select, ◌==◌,
  if◌then◌else◌, Bool-cases, ◌≡◌, refl, ◌⊎◌, inl, inr, Memᴰ, arith, ==_self, ==→eq, ◌∙◌, ap,
}
use roam.Prelude.Maps.{contains, lookup, IsAscending, lookup-upsert, upsert-IsAscending}
use roam.Prelude.Sets.{
  insert_sorted, IsSortedSet, insert_sorted-IsSortedSet, contains-insert_sorted,
}
use roam.Roster.Entry.{Role, RosterEntry, RosterOp, granted_role}
use roam.Roster.Merge.{lamports_of, lamports_step, add_lamport}

abbrev pub is_grant : RosterOp → Bool
is_grant op = elim (granted_role op) [ none ↦ false | some role ↦ true ]

-- The test that the passes make: a grant about the subject, by a member of the set.
abbrev pub decides : List ℕ → ℕ → RosterEntry → Bool
decides admins p e = contains e.added_by admins && (e.subject_peer == p && is_grant e.op)

abbrev pub decisions : List ℕ → ℕ → List RosterEntry → List RosterEntry
decisions admins p es = select (decides admins p) es

-- A grant about `p` by a peer that may decide, among the entries that count.
pub record IsDecision (In : RosterEntry → Type 0) (May : ℕ → Type 0) (p : ℕ) (e : RosterEntry)
    : Type 0 where
  pub counted : In e
  pub allowed : May e.added_by
  pub about : e.subject_peer ≡ p
  pub role : Role
  pub grants : granted_role e.op ≡ some role

module _ (admins : List ℕ) (p : ℕ) where
  pub IsDecision-of_mem :
      (es : List RosterEntry) (e : RosterEntry)
      → Memᴰ e (decisions admins p es)
      → IsDecision (λ d. Memᴰ d es) (λ q. contains q admins ≡ true) p e
  IsDecision-of_mem es e m =
      let (counted, test) = mem_of_select (decides admins p) es m in
      let (role, grants) = role_of e.op test in
      record {
        counted = counted;
        allowed = ground arith;
        about = ground arith;
        role = role;
        grants = grants;
      }
    where
      role_of :
          (op : RosterOp)
          → (contains e.added_by admins && (e.subject_peer == p && is_grant op)) ≡ true
          → (role : Role) × (granted_role op ≡ some role)
      role_of op h = ground arith

  pub mem_of_IsDecision :
      (es : List RosterEntry) (e : RosterEntry)
      → IsDecision (λ d. Memᴰ d es) (λ q. contains q admins ≡ true) p e
      → Memᴰ e (decisions admins p es)
  mem_of_IsDecision es e d =
      mem-select (decides admins p) es d.counted
        (ground (arith, d.allowed, d.about, d.grants, ==_self p))

-- The clock values gathered for the subject.
abbrev pub slot : ℕ → List (ℕ × List ℕ) → List ℕ
slot p m = elim (lookup p m) [ none ↦ [] | some set ↦ set ]

abbrev pub gather : List RosterEntry → List ℕ → List ℕ
gather [] set = set
gather (e ∷ es) set = gather es (insert_sorted e.lamport set)

pub gather-IsSortedSet :
    (es : List RosterEntry) (set : List ℕ) → IsSortedSet set → IsSortedSet (gather es set)
gather-IsSortedSet [] set h = h
gather-IsSortedSet (e ∷ es) set h =
    gather-IsSortedSet es (insert_sorted e.lamport set) (insert_sorted-IsSortedSet e.lamport set h)

gather-keeps :
    (l : ℕ) (es : List RosterEntry) (set : List ℕ)
    → contains l set ≡ true
    → contains l (gather es set) ≡ true
gather-keeps l [] set h = h
gather-keeps l (e ∷ es) set h =
    gather-keeps l es (insert_sorted e.lamport set)
      (ground (arith, contains-insert_sorted l e.lamport set))

pub contains-gather_of_mem :
    (e : RosterEntry) (es : List RosterEntry) (set : List ℕ)
    → Memᴰ e es
    → contains e.lamport (gather es set) ≡ true
contains-gather_of_mem e [] set m = elim m [ ]
contains-gather_of_mem e (d ∷ es) set (Memᴰ.head q) = rw q (
    gather-keeps d.lamport es (insert_sorted d.lamport set)
      (rw (contains-insert_sorted d.lamport d.lamport set) (rw (==_self d.lamport))))
contains-gather_of_mem e (d ∷ es) set (Memᴰ.tail m) =
    contains-gather_of_mem e es (insert_sorted d.lamport set) m

pub of_contains-gather :
    (l : ℕ) (es : List RosterEntry) (set : List ℕ)
    → contains l (gather es set) ≡ true
    → ((e : RosterEntry) × Memᴰ e es × (e.lamport ≡ l)) ⊎ (contains l set ≡ true)
of_contains-gather l [] set h = inr h
of_contains-gather l (d ∷ es) set h =
    elim (of_contains-gather l es (insert_sorted d.lamport set) h) [
      | inl (e, m, q) ↦ inl (e, Memᴰ.tail m, q)
      | inr old ↦ elim (Bool-cases (l == d.lamport)) [
        | inl same ↦ inl (d, Memᴰ.head refl, ground (arith, ==→eq l d.lamport same))
        | inr other ↦ inr (rw other at (rw (contains-insert_sorted l d.lamport set) at old))
      ]
    ]

module _ (admins : List ℕ) where
  lamports_step-IsAscending :
      (e : RosterEntry) (m : List (ℕ × List ℕ))
      → IsAscending m
      → IsAscending (lamports_step admins e m)
  unfolding lamports_step
  lamports_step-IsAscending e m h =
      ground (arith, upsert-IsAscending e.subject_peer (add_lamport e.lamport) m h)

  slot-lamports_step :
      (p : ℕ) (e : RosterEntry) (m : List (ℕ × List ℕ))
      → IsAscending m
      → slot p (lamports_step admins e m)
        ≡ (if decides admins p e then insert_sorted e.lamport (slot p m) else slot p m)
  unfolding lamports_step
  slot-lamports_step p e m h =
      ground (arith, lookup-upsert e.subject_peer (add_lamport e.lamport) p m h)

  pub lamports_of-IsAscending :
      (es : List RosterEntry) (m : List (ℕ × List ℕ))
      → IsAscending m
      → IsAscending (lamports_of admins es m)
  unfolding lamports_of
  lamports_of-IsAscending [] m h = h
  lamports_of-IsAscending (e ∷ es) m h =
      lamports_of-IsAscending es (lamports_step admins e m) (lamports_step-IsAscending e m h)

  -- What the second pass gathers for a subject is the clock values of its decisions.
  pub slot-lamports_of :
      (p : ℕ) (es : List RosterEntry) (m : List (ℕ × List ℕ))
      → IsAscending m
      → slot p (lamports_of admins es m) ≡ gather (decisions admins p es) (slot p m)
  unfolding lamports_of
  slot-lamports_of p [] m h = refl
  slot-lamports_of p (e ∷ es) m h =
      let rest =
        slot-lamports_of p es (lamports_step admins e m) (lamports_step-IsAscending e m h) in
      let one = slot-lamports_step p e m h in
      elim (Bool-cases (decides admins p e)) [
        | inl t ↦ rw t (rest ∙ ap (gather (decisions admins p es)) (rw t at one))
        | inr f ↦ rw f (rest ∙ ap (gather (decisions admins p es)) (rw f at one))
      ]
