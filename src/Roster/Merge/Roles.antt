-- ===== src/Roster/Merge/Roles.antt =====
-- The third pass of `merge_roster`, one subject at a time: the newest admitted decision wins.
use roam.Prelude.{
  ℕ, Bool, ◌&&◌, none, some, List, [], ◌∷◌, select, mem_of_select, ◌==◌, if◌then◌else◌, Bool-cases,
  ◌≡◌, refl, inl, inr, Memᴰ, arith, ltb, ◌∙◌, ap, sym, not,
}
use roam.Prelude.Maps.{contains, lookup, upsert, IsAscending, lookup-upsert, upsert-IsAscending}
use roam.Roster.Entry.{Role, RosterEntry, RosterOp, add, set_role, revoke, set_name}
use roam.Roster.Merge.{
  Grant, keep_key, empty_fold, Fold, keep_grant, grant_of, ceiling_at, fold_role, fold_op,
  fold_entry, fold_entries,
}
use roam.Roster.Merge.Election.{vote, elect, elect_wins, elect-some, IsWinner}
use roam.Roster.Merge.Decisions.{is_grant, decides}

abbrev pub elects : List ℕ → List (ℕ × ℕ) → ℕ → RosterEntry → Bool
elects admins ceilings p e = decides admins p e && not (ltb (ceiling_at ceilings p) e.lamport)

abbrev pub ballots : List ℕ → List (ℕ × ℕ) → ℕ → List RosterEntry → List RosterEntry
ballots admins ceilings p es = select (elects admins ceilings p) es

module _ (admins : List ℕ) (ceilings : List (ℕ × ℕ)) where
  fold_role-IsAscending :
      (e : RosterEntry) (role : Role) (m : List (ℕ × Grant))
      → IsAscending m
      → IsAscending (fold_role ceilings e role m)
  unfolding fold_role
  fold_role-IsAscending e role m h =
      ground (arith, upsert-IsAscending e.subject_peer (keep_grant (grant_of e role)) m h)

  fold_op-IsAscending :
      (e : RosterEntry) (op : RosterOp) (st : Fold)
      → IsAscending st.roles
      → IsAscending (fold_op ceilings e op st).roles
  unfolding fold_op
  fold_op-IsAscending e (add role) st h = fold_role-IsAscending e role st.roles h
  fold_op-IsAscending e (set_role role) st h = fold_role-IsAscending e role st.roles h
  fold_op-IsAscending e revoke st h = h
  fold_op-IsAscending e (set_name n) st h = h

  abbrev with_key : RosterEntry → Fold → Fold
  with_key e st = record st { keys = upsert e.subject_peer (keep_key e.subject_key) st.keys }

  fold_entry-IsAscending :
      (e : RosterEntry) (st : Fold)
      → IsAscending st.roles
      → IsAscending (fold_entry admins ceilings e st).roles
  unfolding fold_entry
  fold_entry-IsAscending e st h = elim (Bool-cases (contains e.added_by admins)) [
    | inl t ↦ rw t (fold_op-IsAscending e e.op (with_key e st) h)
    | inr f ↦ rw f h
  ]

  lookup-fold_role :
      (p : ℕ) (e : RosterEntry) (role : Role) (m : List (ℕ × Grant))
      → IsAscending m
      → lookup p (fold_role ceilings e role m) ≡ (
          if e.subject_peer == p && not (ltb (ceiling_at ceilings p) e.lamport)
          then some (keep_grant (grant_of e role) (lookup p m))
          else lookup p m)
  unfolding fold_role
  lookup-fold_role p e role m h =
      ground (arith, lookup-upsert e.subject_peer (keep_grant (grant_of e role)) p m h)

  lookup-fold_op :
      (p : ℕ) (e : RosterEntry) (op : RosterOp) (st : Fold)
      → IsAscending st.roles
      → lookup p (fold_op ceilings e op st).roles ≡ (
          if (e.subject_peer == p && is_grant op) && not (ltb (ceiling_at ceilings p) e.lamport)
          then vote e op (lookup p st.roles)
          else lookup p st.roles)
  unfolding fold_op
  lookup-fold_op p e (add role) st h = ground (arith, lookup-fold_role p e role st.roles h)
  lookup-fold_op p e (set_role role) st h = ground (arith, lookup-fold_role p e role st.roles h)
  lookup-fold_op p e revoke st h = ground arith
  lookup-fold_op p e (set_name n) st h = ground arith

  lookup-fold_entry :
      (p : ℕ) (e : RosterEntry) (st : Fold)
      → IsAscending st.roles
      → lookup p (fold_entry admins ceilings e st).roles ≡ (
          if elects admins ceilings p e then vote e e.op (lookup p st.roles) else lookup p st.roles)
  unfolding fold_entry
  lookup-fold_entry p e st h = elim (Bool-cases (contains e.added_by admins)) [
    | inl t ↦ rw t (lookup-fold_op p e e.op (with_key e st) h)
    | inr f ↦ rw f refl
  ]

  pub fold_entries-IsAscending :
      (es : List RosterEntry) (st : Fold)
      → IsAscending st.roles
      → IsAscending (fold_entries admins ceilings es st).roles
  unfolding fold_entries
  fold_entries-IsAscending [] st h = h
  fold_entries-IsAscending (e ∷ es) st h =
      fold_entries-IsAscending es (fold_entry admins ceilings e st) (fold_entry-IsAscending e st h)

  lookup-fold_entries :
      (p : ℕ) (es : List RosterEntry) (st : Fold)
      → IsAscending st.roles
      → lookup p (fold_entries admins ceilings es st).roles
        ≡ elect (ballots admins ceilings p es) (lookup p st.roles)
  unfolding fold_entries elect
  lookup-fold_entries p [] st h = refl
  lookup-fold_entries p (e ∷ es) st h =
      let rest =
        lookup-fold_entries p es (fold_entry admins ceilings e st)
          (fold_entry-IsAscending e st h) in
      let one = lookup-fold_entry p e st h in
      elim (Bool-cases (elects admins ceilings p e)) [
        | inl t ↦ rw t (rest ∙ ap (elect (ballots admins ceilings p es)) (rw t at one))
        | inr f ↦ rw f (rest ∙ ap (elect (ballots admins ceilings p es)) (rw f at one))
      ]

  -- The role pass keeps, for each subject, the winner among its ballots.
  pub lookup-roles-IsWinner :
      (p : ℕ) (es : List RosterEntry) {g : Grant}
      → lookup p (fold_entries admins ceilings es empty_fold).roles ≡ some g
      → IsWinner (λ e. Memᴰ e (ballots admins ceilings p es)) g
  lookup-roles-IsWinner p es {g} h =
      elect_wins (ballots admins ceilings p es) g (sym (lookup-fold_entries p es empty_fold tt) ∙ h)

  -- A subject with a ballot has a role.
  pub lookup-roles_of_ballot :
      (p : ℕ) (es : List RosterEntry) (e : RosterEntry)
      → Memᴰ e (ballots admins ceilings p es)
      → (g : Grant) × (lookup p (fold_entries admins ceilings es empty_fold).roles ≡ some g)
  lookup-roles_of_ballot p es e m =
      let (kept, test) = mem_of_select (elects admins ceilings p) es m in
      let (g, q) = elect-some (ballots admins ceilings p es) none e m (ground arith) in
      (g, lookup-fold_entries p es empty_fold tt ∙ q)
