-- ===== src/Roster/Tests.antt =====
-- The theorems on the roster at a small roster: a founder, an admin it adds, and two members.
use roam.Prelude.{
  ℕ, ◌≤◌, ◌<◌, ◌^◌, true, none, some, List, [], ◌∷◌, replicate, All, ◌≡◌, ◌↔◌, refl, Memᴰ, arith,
  subst, sym,
}
use roam.Prelude.Bytes.{codes}
use roam.Prelude.Maps.{contains}
use roam.Roster.Entry.{Role, RosterOp, RosterEntry, PeerRecord, PeerStatus, derives_peer}
use roam.Roster.Canonical.{HasFields, roster_canonical_bytes-injective}
use roam.Roster.Merge.{
  admin_pass, admin_loop, founder_set, ever_admin_of, lamports_step, lamports_of, ceiling_from,
  ceilings_of, bytes_ltb, keep_key, keep_grant, ceiling_at, fold_role, fold_op, fold_entry,
  fold_entries, keep_name, name_op, names_of, record_of, records_of, insert_peer, sort_by_peer,
  ceilings_for, merge_valid, merge_roster,
}
use roam.Roster.Merge.Admins.{EverAdmin, IsAdmitted, ever_admin_of_iff}
use roam.Roster.Merge.Ceilings.{IsGrounded, Clock, HasWords, ceiling_iff}
use roam.Roster.Merge.Meaning.{Decision, IsMeant}
use roam.Roster.Merge.Records.{merge_roster_total, merge_roster-IsMeant}
use roam.Roster.Merge.Convergence.{
  Covers, SameAccessAndKey, without_names, merge_roster-set, revoked_stays,
}
use roam.Roster.Merge.Privilege.{merge_roster_iff}

-- The public key of the peer with a small id.
abbrev key_of : ℕ → List ℕ
key_of p = p ∷ replicate 31 0

abbrev entry : (seq lamport : ℕ) (op : RosterOp) (subject author : ℕ) → RosterEntry
entry seq lamport op subject author = record {
  seq = seq;
  lamport = lamport;
  op = op;
  subject_peer = subject;
  subject_key = key_of subject;
  added_by = author;
}

-- Peer 1 founds the vault and adds peer 2 as an admin, which adds peer 3; peer 3 names itself.
abbrev add_admin : RosterEntry
add_admin = entry 1 1 (RosterOp.add Role.admin) 2 1

abbrev add_writer : RosterEntry
add_writer = entry 1 2 (RosterOp.add Role.writer) 3 2

abbrev name_writer : RosterEntry
name_writer = entry 1 2 (RosterOp.set_name (codes "pad")) 3 3

abbrev revoke_writer : RosterEntry
revoke_writer = entry 2 3 RosterOp.revoke 3 1

abbrev forged : RosterEntry
forged = entry 2 3 (RosterOp.set_role Role.admin) 3 3

abbrev team : List RosterEntry
team = name_writer ∷ forged ∷ add_writer ∷ add_admin ∷ []

abbrev members : List PeerRecord
members =
    record {
      peer_id = 2;
      verifying_key = key_of 2;
      status = PeerStatus.active;
      role = Role.admin;
      name = none;
    }
    ∷ record {
      peer_id = 3;
      verifying_key = key_of 3;
      status = PeerStatus.active;
      role = Role.writer;
      name = some (codes "pad");
    }
    ∷ []

team-merged : merge_roster team (some 1) ≡ some members
unfolding admin_pass admin_loop founder_set ever_admin_of lamports_step lamports_of ceiling_from
    ceilings_of bytes_ltb keep_key keep_grant ceiling_at fold_role fold_op fold_entry fold_entries
    keep_name name_op names_of record_of records_of insert_peer sort_by_peer ceilings_for
    merge_valid merge_roster derives_peer
team-merged = refl

words_of : (es : List RosterEntry) → All (λ (e : RosterEntry). e.lamport < 2 ^ 64) es → HasWords es
words_of [] h e m = elim m [ ]
words_of (d ∷ es) (h, hs) e (Memᴰ.head q) = subst (λ x. x.lamport < 2 ^ 64) (sym q) h
words_of (d ∷ es) (h, hs) e (Memᴰ.tail m) = words_of es hs e m

team-HasWords : HasWords team
team-HasWords = words_of team (omega arith, (omega arith, (omega arith, (omega arith, tt))))

abbrev third : PeerRecord
third = record {
  peer_id = 3;
  verifying_key = key_of 3;
  status = PeerStatus.active;
  role = Role.writer;
  name = some (codes "pad");
}

merge_roster-IsMeant_example : IsMeant (IsAdmitted team) (some 1) third
merge_roster-IsMeant_example =
    merge_roster-IsMeant team (some 1) team-HasWords team-merged third (Memᴰ.tail (Memᴰ.head refl))

merge_roster_total_example : (rs : List PeerRecord) × (merge_roster team (some 1) ≡ some rs)
merge_roster_total_example = merge_roster_total team (some 1) team-HasWords

merge_roster_iff_example :
    ((r : PeerRecord) × Memᴰ r members × (r.peer_id ≡ 3))
    ↔ ((e : RosterEntry) × Decision (IsAdmitted team) (some 1) 3 e)
merge_roster_iff_example = merge_roster_iff team (some 1) members team-HasWords team-merged 3

abbrev no_members : List PeerRecord
no_members = []

unfounded-merged : merge_roster team none ≡ some []
unfolding admin_pass admin_loop founder_set ever_admin_of lamports_step lamports_of ceiling_from
    ceilings_of bytes_ltb keep_key keep_grant ceiling_at fold_role fold_op fold_entry fold_entries
    keep_name name_op names_of record_of records_of insert_peer sort_by_peer ceilings_for
    merge_valid merge_roster derives_peer
unfounded-merged = refl

ever_admin_of_iff_example :
    (contains 2 (ever_admin_of team (some 1)) ≡ true) ↔ EverAdmin (λ e. Memᴰ e team) (some 1) 2
ever_admin_of_iff_example = ever_admin_of_iff team (some 1) 2

ceiling_iff_example :
    (2 ≤ ceiling_at (ceilings_for (1 ∷ 2 ∷ []) team) 3) ↔ IsGrounded (Clock (1 ∷ 2 ∷ []) team 3) 2
ceiling_iff_example = ceiling_iff (1 ∷ 2 ∷ []) team 3 team-HasWords add_writer (Memᴰ.head refl)

-- The same entries in another order, one of them twice.
abbrev shuffled : List RosterEntry
shuffled = add_admin ∷ add_writer ∷ add_admin ∷ forged ∷ name_writer ∷ []

shuffled-merged : merge_roster shuffled (some 1) ≡ some members
unfolding admin_pass admin_loop founder_set ever_admin_of lamports_step lamports_of ceiling_from
    ceilings_of bytes_ltb keep_key keep_grant ceiling_at fold_role fold_op fold_entry fold_entries
    keep_name name_op names_of record_of records_of insert_peer sort_by_peer ceilings_for
    merge_valid merge_roster derives_peer
shuffled-merged = refl

shuffled-HasWords : HasWords shuffled
shuffled-HasWords =
    words_of shuffled (omega arith, (omega arith, (omega arith, (omega arith, (omega arith, tt)))))

to_shuffled : (e : RosterEntry) → Memᴰ e team → Memᴰ e shuffled
to_shuffled e (Memᴰ.tail (Memᴰ.tail (Memᴰ.tail (Memᴰ.tail m)))) = elim m [ ]
to_shuffled e (Memᴰ.head q) = Memᴰ.tail (Memᴰ.tail (Memᴰ.tail (Memᴰ.tail (Memᴰ.head q))))
to_shuffled e (Memᴰ.tail (Memᴰ.head q)) = Memᴰ.tail (Memᴰ.tail (Memᴰ.tail (Memᴰ.head q)))
to_shuffled e (Memᴰ.tail (Memᴰ.tail (Memᴰ.head q))) = Memᴰ.tail (Memᴰ.head q)
to_shuffled e (Memᴰ.tail (Memᴰ.tail (Memᴰ.tail (Memᴰ.head q)))) = Memᴰ.head q

of_shuffled : (e : RosterEntry) → Memᴰ e shuffled → Memᴰ e team
of_shuffled e (Memᴰ.tail (Memᴰ.tail (Memᴰ.tail (Memᴰ.tail (Memᴰ.tail m))))) = elim m [ ]
of_shuffled e (Memᴰ.head q) = Memᴰ.tail (Memᴰ.tail (Memᴰ.tail (Memᴰ.head q)))
of_shuffled e (Memᴰ.tail (Memᴰ.head q)) = Memᴰ.tail (Memᴰ.tail (Memᴰ.head q))
of_shuffled e (Memᴰ.tail (Memᴰ.tail (Memᴰ.head q))) =
    Memᴰ.tail (Memᴰ.tail (Memᴰ.tail (Memᴰ.head q)))
of_shuffled e (Memᴰ.tail (Memᴰ.tail (Memᴰ.tail (Memᴰ.head q)))) = Memᴰ.tail (Memᴰ.head q)
of_shuffled e (Memᴰ.tail (Memᴰ.tail (Memᴰ.tail (Memᴰ.tail (Memᴰ.head q))))) = Memᴰ.head q

merge_roster-set_example :
    Covers SameAccessAndKey members members × Covers SameAccessAndKey members members
merge_roster-set_example =
    merge_roster-set team shuffled (some 1) team-HasWords shuffled-HasWords
      (λ e. (to_shuffled e, of_shuffled e)) members members team-merged shuffled-merged

abbrev unnamed : List PeerRecord
unnamed =
    record {
      peer_id = 2;
      verifying_key = key_of 2;
      status = PeerStatus.active;
      role = Role.admin;
      name = none;
    }
    ∷ record {
      peer_id = 3;
      verifying_key = key_of 3;
      status = PeerStatus.active;
      role = Role.writer;
      name = none;
    }
    ∷ []

unnamed-merged : merge_roster (without_names team) (some 1) ≡ some unnamed
unfolding admin_pass admin_loop founder_set ever_admin_of lamports_step lamports_of ceiling_from
    ceilings_of bytes_ltb keep_key keep_grant ceiling_at fold_role fold_op fold_entry fold_entries
    keep_name name_op names_of record_of records_of insert_peer sort_by_peer ceilings_for
    merge_valid merge_roster derives_peer
unnamed-merged = refl

-- Peer 3 is revoked, and then somebody grants it a role again.
abbrev add_again : RosterEntry
add_again = entry 2 4 (RosterOp.add Role.admin) 3 2

abbrev ended : List RosterEntry
ended = revoke_writer ∷ team

abbrev revived : List RosterEntry
revived = add_again ∷ ended

abbrev former : PeerRecord
former = record {
  peer_id = 3;
  verifying_key = key_of 3;
  status = PeerStatus.revoked;
  role = Role.writer;
  name = some (codes "pad");
}

abbrev once_more : PeerRecord
once_more = record {
  peer_id = 3;
  verifying_key = key_of 3;
  status = PeerStatus.revoked;
  role = Role.admin;
  name = some (codes "pad");
}

abbrev second : PeerRecord
second = record {
  peer_id = 2;
  verifying_key = key_of 2;
  status = PeerStatus.active;
  role = Role.admin;
  name = none;
}

ended-merged : merge_roster ended (some 1) ≡ some (second ∷ former ∷ [])
unfolding admin_pass admin_loop founder_set ever_admin_of lamports_step lamports_of ceiling_from
    ceilings_of bytes_ltb keep_key keep_grant ceiling_at fold_role fold_op fold_entry fold_entries
    keep_name name_op names_of record_of records_of insert_peer sort_by_peer ceilings_for
    merge_valid merge_roster derives_peer
ended-merged = refl

revived-merged : merge_roster revived (some 1) ≡ some (second ∷ once_more ∷ [])
unfolding admin_pass admin_loop founder_set ever_admin_of lamports_step lamports_of ceiling_from
    ceilings_of bytes_ltb keep_key keep_grant ceiling_at fold_role fold_op fold_entry fold_entries
    keep_name name_op names_of record_of records_of insert_peer sort_by_peer ceilings_for
    merge_valid merge_roster derives_peer
revived-merged = refl

ended-HasWords : HasWords ended
ended-HasWords =
    words_of ended (omega arith, (omega arith, (omega arith, (omega arith, (omega arith, tt)))))

revived-HasWords : HasWords revived
revived-HasWords =
    words_of revived
      (omega arith, (omega arith, (omega arith, (omega arith, (omega arith, (omega arith, tt))))))

revoked_stays_example : once_more.status ≡ PeerStatus.revoked
revoked_stays_example =
    revoked_stays ended revived (some 1) ended-HasWords revived-HasWords (λ e m. Memᴰ.tail m)
      (second ∷ former ∷ []) (second ∷ once_more ∷ []) ended-merged revived-merged former once_more
      (Memᴰ.tail (Memᴰ.head refl)) (Memᴰ.tail (Memᴰ.head refl)) refl refl

fields : HasFields add_writer
fields = record {
  seq = omega arith;
  lamport = omega arith;
  subject_peer = omega arith;
  added_by = omega arith;
  key = refl;
}

roster_canonical_bytes-injective_example : add_writer ≡ add_writer
roster_canonical_bytes-injective_example =
    roster_canonical_bytes-injective add_writer add_writer fields fields refl
