-- ===== src/Roster/Merge/Meaning.antt =====
-- What a merged peer record means, in terms of the signed entries alone, and the proof that the
-- passes of `merge_roster` compute it.
use roam.Prelude.{
  ℕ, true, Option, none, some, List, ◌≡◌, ◌⊎◌, ◌↔◌, Memᴰ, arith, ==_self, select, mem-select,
  mem_of_select,
}
use roam.Prelude.Maps.{contains}
use roam.Roster.Entry.{RosterEntry, PeerRecord, PeerStatus, derives_peer, revoke}
use roam.Roster.Merge.{Grant, ceilings_for, ever_admin_of}
use roam.Roster.Merge.Admins.{EverAdmin, EverAdmin-mono, IsAdmitted, ever_admin_of_iff}
use roam.Roster.Merge.Decisions.{
  decides, decisions, IsDecision, IsDecision-of_mem, mem_of_IsDecision,
}
use roam.Roster.Merge.Ceilings.{
  IsGrounded, IsGrounded_map, Clock, HasWords, ceiling_iff, some_grounded,
}
use roam.Roster.Merge.Election.{IsWinner}
use roam.Roster.Merge.Roles.{elects, ballots}
use roam.Roster.Merge.Keys.{speaks, about, IsLeastKey}
use roam.Roster.Merge.Names.{NamesItself, IsLatestName}

-- The specification, over the entries that count (`In`) and the founder.
module _ (In : RosterEntry → Type 0) (founder : Option ℕ) where
  -- A grant about `p` that an admin made.
  abbrev pub Decision : ℕ → RosterEntry → Type 0
  Decision p e = IsDecision In (EverAdmin In founder) p e

  abbrev pub ClockOf : ℕ → ℕ → Type 0
  ClockOf p l = (e : RosterEntry) × Decision p e × (e.lamport ≡ l)

  -- A decision whose clock the gap rule admits.
  abbrev pub Ballot : ℕ → RosterEntry → Type 0
  Ballot p e = Decision p e × IsGrounded (ClockOf p) e.lamport

  -- Any entry about `p` by an admin.
  abbrev pub Speaks : ℕ → RosterEntry → Type 0
  Speaks p e = In e × EverAdmin In founder e.added_by × (e.subject_peer ≡ p)

  abbrev pub Revocation : ℕ → Type 0
  Revocation p = (e : RosterEntry) × Speaks p e × (e.op ≡ revoke)

  -- The device's latest name for itself, if it gave one.
  abbrev pub IsNamed : ℕ → Option (List ℕ) → Type 0
  IsNamed p given =
      ((given ≡ none) × ((e : RosterEntry) (other : List ℕ) → In e → ¬ NamesItself p e other))
      ⊎ ((name : List ℕ) × (given ≡ some name) × IsLatestName In p name)

  -- The meaning of one record.
  pub record IsMeant (r : PeerRecord) : Type 0 where
    pub grant : Grant
    pub elected : IsWinner (Ballot r.peer_id) grant
    pub role : r.role ≡ grant.role
    pub key : IsLeastKey (Speaks r.peer_id) r.verifying_key
    pub status : (r.status ≡ PeerStatus.revoked) ↔ Revocation r.peer_id
    pub name : IsNamed r.peer_id r.name

module _ (entries : List RosterEntry) (founder : Option ℕ) (words : HasWords entries) where
  abbrev pub valid : List RosterEntry
  valid = select derives_peer entries

  abbrev pub admins : List ℕ
  admins = ever_admin_of valid founder

  abbrev pub Counted : RosterEntry → Type 0
  Counted = IsAdmitted entries

  abbrev pub May : ℕ → Type 0
  May = EverAdmin Counted founder

  pub counted_of_valid : (e : RosterEntry) → Memᴰ e valid → Counted e
  counted_of_valid e m = mem_of_select derives_peer entries m

  pub valid_of_counted : (e : RosterEntry) → Counted e → Memᴰ e valid
  valid_of_counted e c = mem-select derives_peer entries c.0 c.1

  pub May-of_contains : (q : ℕ) → contains q admins ≡ true → May q
  May-of_contains q h = EverAdmin-mono counted_of_valid ((ever_admin_of_iff valid founder q).0 h)

  pub contains_of_May : (q : ℕ) → May q → contains q admins ≡ true
  contains_of_May q a = (ever_admin_of_iff valid founder q).1 (EverAdmin-mono valid_of_counted a)

  pub valid_words : HasWords valid
  valid_words e m = words e (counted_of_valid e m).0

  module _ (p : ℕ) where
    pub Decision-of_mem :
        (e : RosterEntry) → Memᴰ e (decisions admins p valid) → Decision Counted founder p e
    Decision-of_mem e m =
        let d = IsDecision-of_mem admins p valid e m in
        record {
          counted = counted_of_valid e d.counted;
          allowed = May-of_contains e.added_by d.allowed;
          about = d.about;
          role = d.role;
          grants = d.grants;
        }

    pub mem_of_decision :
        (e : RosterEntry) → Decision Counted founder p e → Memᴰ e (decisions admins p valid)
    mem_of_decision e d = mem_of_IsDecision admins p valid e (record {
      counted = valid_of_counted e d.counted;
      allowed = contains_of_May e.added_by d.allowed;
      about = d.about;
      role = d.role;
      grants = d.grants;
    })

    Clock-to : (l : ℕ) → Clock admins valid p l → ClockOf Counted founder p l
    Clock-to l (e, m, q) = (e, Decision-of_mem e m, q)

    Clock-from : (l : ℕ) → ClockOf Counted founder p l → Clock admins valid p l
    Clock-from l (e, d, q) = (e, mem_of_decision e d, q)

    abbrev pub electorate : List RosterEntry
    electorate = ballots admins (ceilings_for admins valid) p valid

    pub Ballot-of_mem : (e : RosterEntry) → Memᴰ e electorate → Ballot Counted founder p e
    Ballot-of_mem e m =
        let (n, test) = mem_of_select (elects admins (ceilings_for admins valid) p) valid m in
        let d = mem-select (decides admins p) valid n (ground arith) in
        (
          Decision-of_mem e d,
          IsGrounded_map Clock-to Clock-from
              ((ceiling_iff admins valid p valid_words e d).0 (ground arith)),
        )

    pub mem_of_ballot : (e : RosterEntry) → Ballot Counted founder p e → Memᴰ e electorate
    mem_of_ballot e (d, g) =
        let m = mem_of_decision e d in
        let (n, test) = mem_of_select (decides admins p) valid m in
        let le =
          (ceiling_iff admins valid p valid_words e m).1 (IsGrounded_map Clock-from Clock-to g) in
        mem-select (elects admins (ceilings_for admins valid) p) valid n (ground arith)

    pub speaks_of_mem :
        (e : RosterEntry) → Memᴰ e (about admins p valid) → Speaks Counted founder p e
    speaks_of_mem e m =
        let (n, test) = mem_of_select (speaks admins p) valid m in
        (counted_of_valid e n, May-of_contains e.added_by (ground arith), ground arith)

    pub mem_of_speaks :
        (e : RosterEntry) → Speaks Counted founder p e → Memᴰ e (about admins p valid)
    mem_of_speaks e (c, a, q) =
        let has = contains_of_May e.added_by a in
        mem-select (speaks admins p) valid (valid_of_counted e c) (ground (arith, has, ==_self p))

    -- A decision about the peer, if there is one, leaves a ballot.
    pub some-Ballot :
        (e : RosterEntry)
        → Decision Counted founder p e
        → (d : RosterEntry) × Ballot Counted founder p d
    some-Ballot e dec =
        let (d, n, g) = some_grounded admins valid p valid_words e (mem_of_decision e dec) in
        (d, (Decision-of_mem d n, IsGrounded_map Clock-to Clock-from g))
