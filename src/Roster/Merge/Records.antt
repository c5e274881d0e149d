-- ===== src/Roster/Merge/Records.antt =====
-- The theorems about `merge_roster` as a whole.
use roam.Prelude.{
  ℕ, true, Option, none, some, List, [], if◌then◌else◌, Bool-cases, ◌≡◌, refl, inl, inr, ◌↔◌, Memᴰ,
  arith, ==_self, ◌∙◌, ap, sym, subst, of_any, any_of_mem,
}
use roam.Prelude.Maps.{contains, lookup, mem_of_lookup, IsAscending}
use roam.Roster.Entry.{RosterEntry, RosterOp, PeerRecord, PeerStatus, revoke}
use roam.Roster.Merge.{
  Fold, Grant, empty_fold, fold_entries, ceilings_for, names_of, merge_valid, merge_roster,
  make_record, record_of, records_of, sort_by_peer,
}
use roam.Roster.Merge.Admins.{IsAdmitted}
use roam.Roster.Merge.Ceilings.{HasWords}
use roam.Roster.Merge.Election.{IsWinner, IsWinner-map}
use roam.Roster.Merge.Roles.{
  fold_entries-IsAscending, lookup-roles-IsWinner, lookup-roles_of_ballot,
}
use roam.Roster.Merge.Keys.{IsLeastKey, IsLeastKey_map, lookup-keys}
use roam.Roster.Merge.Revocations.{is_revoke, revokes, contains-revoked}
use roam.Roster.Merge.Names.{lookup-names}
use roam.Roster.Merge.Output.{
  HasAscendingPeers, sort_of_ascending, records_of_total, mem-records_of, records_of-mem,
  records_of-ascending, lookup_of_mem, peer_id-record_of,
}
use roam.Roster.Merge.Meaning.{
  Ballot, Speaks, Revocation, IsMeant, IsNamed, valid, admins, Counted, Ballot-of_mem,
  mem_of_ballot, speaks_of_mem, mem_of_speaks, counted_of_valid, valid_of_counted, May-of_contains,
  contains_of_May,
}

merge_valid_lem :
    (valid : List RosterEntry) (admins : List ℕ) (rs : List PeerRecord)
    → records_of
        (fold_entries admins (ceilings_for admins valid) valid empty_fold)
        (names_of valid [])
        (fold_entries admins (ceilings_for admins valid) valid empty_fold).roles
      ≡ some rs
    → merge_valid valid admins ≡ some (sort_by_peer rs)
unfolding merge_valid
merge_valid_lem valid admins rs h = rw (h, merge_valid)

module _ (entries : List RosterEntry) (founder : Option ℕ) (words : HasWords entries) where
  abbrev live : List RosterEntry
  live = valid entries founder words

  abbrev rulers : List ℕ
  rulers = admins entries founder words

  abbrev folded : Fold
  folded = fold_entries rulers (ceilings_for rulers live) live empty_fold

  abbrev named : List (ℕ × (ℕ × List ℕ))
  named = names_of live []

  roles-IsAscending : IsAscending folded.roles
  roles-IsAscending = fold_entries-IsAscending rulers (ceilings_for rulers live) live empty_fold tt

  IsWinner-of :
      (p : ℕ) {g : Grant}
      → lookup p folded.roles ≡ some g
      → IsWinner (Ballot (Counted entries founder words) founder p) g
  IsWinner-of p h =
      IsWinner-map (Ballot-of_mem entries founder words p) (mem_of_ballot entries founder words p)
        (lookup-roles-IsWinner rulers (ceilings_for rulers live) p live h)

  key_of :
      (p : ℕ) (e : RosterEntry)
      → Speaks (Counted entries founder words) founder p e
      → (k : List ℕ) × (lookup p folded.keys ≡ some k)
        × IsLeastKey (Speaks (Counted entries founder words) founder p) k
  key_of p e s =
      let (k, q, least) =
        lookup-keys rulers (ceilings_for rulers live) p live e
          (mem_of_speaks entries founder words p e s) in
      (
        k,
        q,
        IsLeastKey_map (speaks_of_mem entries founder words p)
            (mem_of_speaks entries founder words p) least,
      )

  speaks_of_ballot :
      (p : ℕ) (e : RosterEntry)
      → Ballot (Counted entries founder words) founder p e
      → Speaks (Counted entries founder words) founder p e
  speaks_of_ballot p e (d, _) = (d.counted, d.allowed, d.about)

  has_keys :
      (p : ℕ) (g : Grant)
      → Memᴰ (p, g) folded.roles
      → (k : List ℕ) × (lookup p folded.keys ≡ some k)
  has_keys p g m =
      let w = IsWinner-of p (lookup_of_mem p g folded.roles roles-IsAscending m) in
      let (k, q, _) = key_of p w.entry (speaks_of_ballot p w.entry w.counted) in (k, q)

  built : (rs : List PeerRecord) × (records_of folded named folded.roles ≡ some rs)
  built = records_of_total folded named folded.roles has_keys

  -- What `merge_roster` returns: the records of the roles, already in order.
  merge_roster-built : merge_roster entries founder ≡ some built.0
  unfolding merge_roster
  merge_roster-built =
      merge_valid_lem live rulers built.0 built.1
      ∙ ap some (
          sort_of_ascending built.0
            (records_of-ascending folded named folded.roles built.0 built.1 roles-IsAscending))

  Revocation-of :
      (p : ℕ)
      → contains p folded.revoked ≡ true
      → Revocation (Counted entries founder words) founder p
  Revocation-of p h =
      let at_p = contains-revoked rulers (ceilings_for rulers live) p live empty_fold in
      let (e, m, t) = of_any (revokes rulers p) live (ground (arith, at_p)) in
      (
        e,
        (
          counted_of_valid entries founder words e m,
          May-of_contains entries founder words e.added_by (ground arith),
          ground arith,
        ),
        revoke_of e.op (ground arith),
      )
    where
      revoke_of : (op : RosterOp) → is_revoke op ≡ true → op ≡ revoke
      revoke_of op t = ground arith

  of_Revocation :
      (p : ℕ)
      → Revocation (Counted entries founder words) founder p
      → contains p folded.revoked ≡ true
  of_Revocation p (e, (c, a, q), r) =
      let at_p = contains-revoked rulers (ceilings_for rulers live) p live empty_fold in
      let has = contains_of_May entries founder words e.added_by a in
      let all =
        any_of_mem (revokes rulers p) live (valid_of_counted entries founder words e c)
          (ground (arith, has, ==_self p, r)) in
      ground (arith, at_p, all)

  -- A record that is built for a role means what it should.
  record_of-IsMeant :
      (p : ℕ) (g : Grant) (r : PeerRecord)
      → lookup p folded.roles ≡ some g
      → record_of folded named p g ≡ some r
      → IsMeant (Counted entries founder words) founder r
  unfolding record_of
  record_of-IsMeant p g r at_g h =
      let w = IsWinner-of p at_g in
      let (k, at_k, least) = key_of p w.entry (speaks_of_ballot p w.entry w.counted) in
      let same : make_record folded named p g k ≡ r = ground (arith, at_k) in
      subst (IsMeant (Counted entries founder words) founder) same (record {
        grant = g;
        elected = w;
        role = refl;
        key = least;
        status = status_iff;
        name = name_cases;
      })
    where
      status_iff :
          ((if contains p folded.revoked then PeerStatus.revoked else PeerStatus.active)
            ≡ PeerStatus.revoked)
          ↔ Revocation (Counted entries founder words) founder p
      status_iff = elim (Bool-cases (contains p folded.revoked)) [
        | inl t ↦ rw t (λ _. Revocation-of p t, λ _. refl)
        | inr f ↦ rw f (λ e. absurd (cc), λ rev. absurd (ground (arith, of_Revocation p rev, f)))
      ]

      name_cases :
          IsNamed
            (Counted entries founder words)
            founder
            p
            (elim (lookup p named) [ none ↦ none | some slot ↦ some slot.1 ])
      name_cases = elim (lookup-names p live) [
        | inl (q, silent) ↦
            inl (rw q, λ e o c. silent e o (valid_of_counted entries founder words e c))
        | inr (seq, name, q, w) ↦ inr (
          name,
          rw q,
          record {
            entry = w.entry;
            counted = counted_of_valid entries founder words w.entry w.counted;
            gives = w.gives;
            latest = λ e o c. w.latest e o (valid_of_counted entries founder words e c);
          },
        )
      ]

-- The merge of entries with 64-bit clocks returns: no record lacks its key.
pub merge_roster_total :
    (entries : List RosterEntry) (founder : Option ℕ)
    → HasWords entries
    → (rs : List PeerRecord) × (merge_roster entries founder ≡ some rs)
merge_roster_total entries founder words =
    ((built entries founder words).0, merge_roster-built entries founder words)

module _ (entries : List RosterEntry) (founder : Option ℕ) (words : HasWords entries)
    {rs : List PeerRecord} (merged : merge_roster entries founder ≡ some rs) where
  abbrev the_built : List PeerRecord
  the_built = (built entries founder words).0

  same_built : the_built ≡ rs
  same_built = let q = merge_roster-built entries founder words in cc

  -- Where all clocks have 64 bits, each record that the merge returns means what the entries say:
  -- its role is that of the winning admitted decision, its key the least that an admin gave for
  -- it, it is revoked exactly when an admin revoked it, and its name is the latest that it gave
  -- itself.
  pub merge_roster-IsMeant : (r : PeerRecord) → Memᴰ r rs → IsMeant (IsAdmitted entries) founder r
  merge_roster-IsMeant r m =
      let st = folded entries founder words in
      let m' : Memᴰ r the_built = subst (λ l. Memᴰ r l) (sym same_built) m in
      let (p, g, n, q) =
        mem-records_of st (named entries founder words) st.roles the_built r
          (built entries founder words).1 m' in
      record_of-IsMeant entries founder words p g r
        (lookup_of_mem p g st.roles (roles-IsAscending entries founder words) n) q

  -- Where all clocks have 64 bits, the records ascend strictly by peer id, so no peer has two.
  pub merge_roster-ascending : HasAscendingPeers rs
  merge_roster-ascending =
      let st = folded entries founder words in
      subst HasAscendingPeers same_built (
        records_of-ascending st (named entries founder words) st.roles the_built
          (built entries founder words).1 (roles-IsAscending entries founder words))

  -- A peer about which there is an admitted decision has a record.
  pub merge_roster_of_Ballot :
      (p : ℕ) (e : RosterEntry)
      → Ballot (IsAdmitted entries) founder p e
      → (r : PeerRecord) × Memᴰ r rs × (r.peer_id ≡ p)
  merge_roster_of_Ballot p e b =
      let st = folded entries founder words in
      let (g, at_g) =
        lookup-roles_of_ballot (rulers entries founder words)
          (ceilings_for (rulers entries founder words) (live entries founder words)) p
          (live entries founder words) e (mem_of_ballot entries founder words p e b) in
      let (r, m, q) =
        records_of-mem st (named entries founder words) st.roles the_built p g
          (built entries founder words).1 (mem_of_lookup p st.roles at_g) in
      (
        r,
        subst (λ l. Memᴰ r l) same_built m,
        peer_id-record_of st (named entries founder words) p g r q,
      )
