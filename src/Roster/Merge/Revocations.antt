-- ===== src/Roster/Merge/Revocations.antt =====
-- Revocation in `merge_roster`: a subject is revoked exactly when an admin's entry says so.
use roam.Prelude.{
  ℕ, Bool, true, false, ◌&&◌, ◌||◌, List, [], ◌∷◌, ◌==◌, Bool-cases, ◌≡◌, refl, inl, inr, arith,
  any,
}
use roam.Prelude.Maps.{contains, contains-insert, upsert}
use roam.Roster.Entry.{RosterEntry, RosterOp, add, set_role, revoke, set_name}
use roam.Roster.Merge.{Fold, keep_key, fold_op, fold_entry, fold_entries}

abbrev pub is_revoke : RosterOp → Bool
is_revoke revoke = true
is_revoke (add role) = false
is_revoke (set_role role) = false
is_revoke (set_name name) = false

-- The entry revokes the subject.
abbrev pub revokes : List ℕ → ℕ → RosterEntry → Bool
revokes admins p e = contains e.added_by admins && (e.subject_peer == p && is_revoke e.op)

module _ (admins : List ℕ) (ceilings : List (ℕ × ℕ)) where
  contains-fold_op :
      (p : ℕ) (e : RosterEntry) (op : RosterOp) (st : Fold)
      → contains p (fold_op ceilings e op st).revoked
        ≡ ((e.subject_peer == p && is_revoke op) || contains p st.revoked)
  unfolding fold_op
  contains-fold_op p e (add role) st = ground arith
  contains-fold_op p e (set_role role) st = ground arith
  contains-fold_op p e (set_name n) st = ground arith
  contains-fold_op p e revoke st = ground (arith, contains-insert p e.subject_peer st.revoked)

  contains-fold_entry :
      (p : ℕ) (e : RosterEntry) (st : Fold)
      → contains p (fold_entry admins ceilings e st).revoked
        ≡ (revokes admins p e || contains p st.revoked)
  unfolding fold_entry
  contains-fold_entry p e st = elim (Bool-cases (contains e.added_by admins)) [
    | inl t ↦ rw t (
        contains-fold_op p e e.op
          (record st { keys = upsert e.subject_peer (keep_key e.subject_key) st.keys }))
    | inr f ↦ rw f refl
  ]

  pub contains-revoked :
      (p : ℕ) (es : List RosterEntry) (st : Fold)
      → contains p (fold_entries admins ceilings es st).revoked
        ≡ (any (revokes admins p) es || contains p st.revoked)
  unfolding fold_entries
  contains-revoked p [] st = refl
  contains-revoked p (e ∷ es) st =
      ground
        (arith, contains-revoked p es (fold_entry admins ceilings e st), contains-fold_entry p e st)
