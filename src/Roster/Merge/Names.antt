-- ===== src/Roster/Merge/Names.antt =====
-- The last pass of `merge_roster`: the name that a device gave itself with the highest sequence
-- number.
use roam.Prelude.{
  ℕ, ◌≤◌, ◌<◌, true, ◌&&◌, Option, none, some, List, [], ◌∷◌, ◌==◌, if◌then◌else◌, Bool-cases, ◌≡◌,
  refl, ◌⊎◌, inl, inr, Memᴰ, arith, ◌∙◌, ap, leb, subst,
}
use roam.Prelude.Maps.{lookup, IsAscending, lookup-upsert, upsert-IsAscending}
use roam.Roster.Entry.{RosterEntry, RosterOp, add, set_role, revoke, set_name}
use roam.Roster.Merge.{keep_name, name_op, names_of}

-- The entry is the device's own, and names it.
abbrev pub NamesItself : ℕ → RosterEntry → List ℕ → Type 0
NamesItself p e name = (e.subject_peer ≡ p) × (e.added_by ≡ p) × (e.op ≡ set_name name)

-- The name with the highest sequence number among the devices' own.
pub record IsLatestName (In : RosterEntry → Type 0) (p : ℕ) (name : List ℕ) : Type 0 where
  pub entry : RosterEntry
  pub counted : In entry
  pub gives : NamesItself p entry name
  pub latest : (e : RosterEntry) (other : List ℕ) → In e → NamesItself p e other → e.seq ≤ entry.seq

abbrev Names : Type 0
Names = List (ℕ × (ℕ × List ℕ))

name_op-IsAscending :
    (e : RosterEntry) (op : RosterOp) (m : Names) → IsAscending m → IsAscending (name_op e op m)
unfolding name_op
name_op-IsAscending e (set_name n) m h =
    ground (arith, upsert-IsAscending e.subject_peer (keep_name e.seq n) m h)
name_op-IsAscending e (add r) m h = h
name_op-IsAscending e (set_role r) m h = h
name_op-IsAscending e revoke m h = h

abbrev rename : ℕ → RosterEntry → RosterOp → Option (ℕ × List ℕ) → Option (ℕ × List ℕ)
rename p e (set_name n) slot =
    if e.added_by == e.subject_peer && e.subject_peer == p
    then some (keep_name e.seq n slot)
    else slot
rename p e (add r) slot = slot
rename p e (set_role r) slot = slot
rename p e revoke slot = slot

lookup-name_op :
    (p : ℕ) (e : RosterEntry) (op : RosterOp) (m : Names)
    → IsAscending m
    → lookup p (name_op e op m) ≡ rename p e op (lookup p m)
unfolding name_op
lookup-name_op p e (set_name n) m h =
    ground (arith, lookup-upsert e.subject_peer (keep_name e.seq n) p m h)
lookup-name_op p e (add r) m h = refl
lookup-name_op p e (set_role r) m h = refl
lookup-name_op p e revoke m h = refl

renames : ℕ → List RosterEntry → Option (ℕ × List ℕ) → Option (ℕ × List ℕ)
renames p [] slot = slot
renames p (e ∷ es) slot = renames p es (rename p e e.op slot)

lookup-names_of :
    (p : ℕ) (es : List RosterEntry) (m : Names)
    → IsAscending m
    → lookup p (names_of es m) ≡ renames p es (lookup p m)
unfolding names_of renames
lookup-names_of p [] m h = refl
lookup-names_of p (e ∷ es) m h =
    lookup-names_of p es (name_op e e.op m) (name_op-IsAscending e e.op m h)
    ∙ ap (renames p es) (lookup-name_op p e e.op m h)

abbrev slot_seq : Option (ℕ × List ℕ) → ℕ
slot_seq none = 0
slot_seq (some s) = s.0

-- One entry: it leaves the slot, or it is a newer name and takes the slot.
abbrev Left : ℕ → RosterEntry → RosterOp → Option (ℕ × List ℕ) → Type 0
Left p e op slot =
    (rename p e op slot ≡ slot)
    × ((other : List ℕ)
        → e.subject_peer ≡ p
        → e.added_by ≡ p
        → op ≡ set_name other
        → e.seq < slot_seq slot)

abbrev Took : ℕ → RosterEntry → RosterOp → Option (ℕ × List ℕ) → Type 0
Took p e op slot =
    (name : List ℕ) × (e.subject_peer ≡ p)
    × (e.added_by ≡ p)
    × (op ≡ set_name name)
    × (rename p e op slot ≡ some (e.seq, name))
    × (slot_seq slot ≤ e.seq)

rename_cases :
    (p : ℕ) (e : RosterEntry) (op : RosterOp) (slot : Option (ℕ × List ℕ))
    → Left p e op slot ⊎ Took p e op slot
unfolding keep_name
rename_cases p e (add r) slot = inl (refl, λ o a b c. absurd (cc))
rename_cases p e (set_role r) slot = inl (refl, λ o a b c. absurd (cc))
rename_cases p e revoke slot = inl (refl, λ o a b c. absurd (cc))
rename_cases p e (set_name n) slot =
    elim (Bool-cases (e.added_by == e.subject_peer && e.subject_peer == p)) [
      | inr other ↦ inl (rw other, λ o a b c. absurd (ground arith))
      | inl own ↦ self own slot
    ]
  where
    self :
        (e.added_by == e.subject_peer && e.subject_peer == p) ≡ true
        → (s : Option (ℕ × List ℕ)) → Left p e (set_name n) s ⊎ Took p e (set_name n) s
    self own none = inr (n, ground arith, ground arith, refl, rw (own, keep_name), omega arith)
    self own (some s) = elim (Bool-cases (leb s.0 e.seq)) [
      | inl new ↦
          inr (n, ground arith, ground arith, refl, rw (own, keep_name) (rw new), ground arith)
      | inr old ↦ inl (rw (own, keep_name) (rw old), λ o a b c. ground arith)
    ]

abbrev KeptBy : ℕ → List RosterEntry → Option (ℕ × List ℕ) → Type 0
KeptBy p es slot =
    (renames p es slot ≡ slot)
    × ((e : RosterEntry) (other : List ℕ)
        → Memᴰ e es
        → NamesItself p e other
        → e.seq < slot_seq slot)

abbrev SpokeIn : ℕ → List RosterEntry → Option (ℕ × List ℕ) → Type 0
SpokeIn p es slot =
    (e : RosterEntry) × (name : List ℕ) × Memᴰ e es
    × NamesItself p e name
    × (renames p es slot ≡ some (e.seq, name))
    × (slot_seq slot ≤ e.seq)
    × ((d : RosterEntry) (other : List ℕ) → Memᴰ d es → NamesItself p d other → d.seq ≤ e.seq)

abbrev Bounded : (ℕ → Type 0) → ℕ → List RosterEntry → Type 0
Bounded P p es = (d : RosterEntry) (other : List ℕ) → Memᴰ d es → NamesItself p d other → P d.seq

Bounded-cons :
    (P : ℕ → Type 0) (p : ℕ) (e : RosterEntry) (es : List RosterEntry)
    → ((other : List ℕ) → NamesItself p e other → P e.seq)
    → Bounded P p es
    → Bounded P p (e ∷ es)
Bounded-cons P p e es here later d other (Memᴰ.head q) h =
    rw q (here other (subst (λ x. NamesItself p x other) q h))
Bounded-cons P p e es here later d other (Memᴰ.tail m) h = later d other m h

renames_cases :
    (p : ℕ) (es : List RosterEntry) (slot : Option (ℕ × List ℕ))
    → KeptBy p es slot ⊎ SpokeIn p es slot
unfolding renames
renames_cases p [] slot = inl (refl, λ e o m h. elim m [ ])
renames_cases p (e ∷ es) slot = elim (rename_cases p e e.op slot) [
  | inl (same, below) ↦ elim (renames_cases p es (rename p e e.op slot)) [
    | inl (kept, under) ↦ inl (
      kept ∙ same,
      Bounded-cons (λ s. s < slot_seq slot) p e es (λ o h. below o h.0 h.1 h.2) (rw same at under),
    )
    | inr (d, n, m, h, spoke, up, all) ↦ inr (
      d,
      n,
      Memᴰ.tail m,
      h,
      spoke,
      rw same at up,
      Bounded-cons (λ s. s ≤ d.seq) p e es
          (λ o k. above d.seq (below o k.0 k.1 k.2) (rw same at up)) all,
    )
  ]
  | inr (name, q0, q1, q2, took, up) ↦ elim (renames_cases p es (rename p e e.op slot)) [
    | inl (kept, under) ↦ inr (
      e,
      name,
      Memᴰ.head refl,
      (q0, q1, q2),
      kept ∙ took,
      up,
      Bounded-cons (λ s. s ≤ e.seq) p e es (λ o h. omega arith)
          (λ d o m h. weaken d.seq took (under d o m h)),
    )
    | inr (d, n, m, h, spoke, over, all) ↦
        let over' : e.seq ≤ d.seq = rw took at over in
        inr (
          d,
          n,
          Memᴰ.tail m,
          h,
          spoke,
          omega arith,
          Bounded-cons (λ s. s ≤ d.seq) p e es (λ o k. over') all,
        )
  ]
]
  where
    above : (s : ℕ) → e.seq < slot_seq slot → slot_seq slot ≤ s → e.seq ≤ s
    above s a b = omega arith

    weaken :
        (s : ℕ) {name : List ℕ}
        → rename p e e.op slot ≡ some (e.seq, name)
        → s < slot_seq (rename p e e.op slot)
        → s ≤ e.seq
    weaken s took a = let a' : s < e.seq = rw took at a in omega arith

-- A subject is named exactly when it named itself, and then by its latest name.
pub lookup-names :
    (p : ℕ) (es : List RosterEntry)
    → ((lookup p (names_of es []) ≡ none)
        × ((e : RosterEntry) (other : List ℕ) → Memᴰ e es → ¬ NamesItself p e other))
      ⊎ ((seq : ℕ) × (name : List ℕ) × (lookup p (names_of es []) ≡ some (seq, name))
          × IsLatestName (λ e. Memᴰ e es) p name)
lookup-names p es = elim (renames_cases p es none) [
  | inl (kept, under) ↦
      inl (lookup-names_of p es [] tt ∙ kept, λ e o m h. absurd (ground (arith, under e o m h)))
  | inr (e, name, m, h, spoke, _, all) ↦ inr (
    e.seq,
    name,
    lookup-names_of p es [] tt ∙ spoke,
    record { entry = e; counted = m; gives = h; latest = all },
  )
]
