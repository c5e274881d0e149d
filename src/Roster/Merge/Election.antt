-- ===== src/Roster/Merge/Election.antt =====
-- The election among the decisions about one subject: the newest wins, and on one clock and author
-- the least privileged.
use roam.Prelude.{
  ◌≤◌, ◌<◌, true, Option, none, some, List, [], ◌∷◌, Option-cases, ◌≡◌, refl, ◌⊎◌, inl, inr, Memᴰ,
  arith, subst,
}
use roam.Roster.Entry.{Role, role_byte, RosterEntry, RosterOp, granted_role}
use roam.Roster.Merge.{Grant, keep_grant, grant_of}
use roam.Roster.Merge.Decisions.{is_grant}

-- The first is at least as new as the second; on one clock and one author, no more privileged.
abbrev pub Outranks : Grant → Grant → Type 0
Outranks w c =
    (c.lamport < w.lamport)
    ⊎ (c.lamport ≡ w.lamport)
      × ((c.added_by < w.added_by)
          ⊎ (c.added_by ≡ w.added_by) × (role_byte w.role ≤ role_byte c.role))

Outranks-refl : (c : Grant) → Outranks c c
Outranks-refl c = ground arith

pub Outranks-trans : (a b c : Grant) → Outranks a b → Outranks b c → Outranks a c
Outranks-trans a b c h k = ground arith

role_byte_inj : (a b : Role) → role_byte a ≡ role_byte b → a ≡ b
role_byte_inj a b h = ground arith

pub Outranks-antisymm : (a b : Grant) → Outranks a b → Outranks b a → a ≡ b
Outranks-antisymm a b h k = ground (arith, role_byte_inj a.role b.role)

keep_grant-Outranks :
    (c u : Grant) → Outranks (keep_grant c (some u)) c × Outranks (keep_grant c (some u)) u
unfolding keep_grant
keep_grant-Outranks c u = ground arith

keep_grant_cases : (c u : Grant) → (keep_grant c (some u) ≡ c) ⊎ (keep_grant c (some u) ≡ u)
unfolding keep_grant
keep_grant_cases c u = ground arith

-- The grants that a list of entries makes, one after the other.
abbrev pub vote : RosterEntry → RosterOp → Option Grant → Option Grant
vote e op best = elim (granted_role op) [
  | none ↦ best
  | some role ↦ some (keep_grant (grant_of e role) best)
]

unfoldable pub elect : List RosterEntry → Option Grant → Option Grant
elect [] best = best
elect (e ∷ es) best = elect es (vote e e.op best)

-- The decision that a grant records.
abbrev pub Records : RosterEntry → Grant → Type 0
Records e g = (role : Role) × (granted_role e.op ≡ some role) × (g ≡ grant_of e role)

-- The winner among the entries: one of them, and at least as new as each.
pub record IsWinner (In : RosterEntry → Type 0) (g : Grant) : Type 0 where
  pub entry : RosterEntry
  pub counted : In entry
  pub made : Records entry g
  pub newest : (e : RosterEntry) (c : Grant) → In e → Records e c → Outranks g c

pub IsWinner-unique :
    {In : RosterEntry → Type 0} (g h : Grant) → IsWinner In g → IsWinner In h → g ≡ h
IsWinner-unique g h v w =
    Outranks-antisymm g h (v.newest w.entry h w.counted w.made)
      (w.newest v.entry g v.counted v.made)

pub IsWinner-map :
    {In In' : RosterEntry → Type 0} {g : Grant}
    → ((e : RosterEntry) → In e → In' e)
    → ((e : RosterEntry) → In' e → In e)
    → IsWinner In g
    → IsWinner In' g
IsWinner-map to from w = record {
  entry = w.entry;
  counted = to w.entry w.counted;
  made = w.made;
  newest = λ e c m r. w.newest e c (from e m) r;
}

-- A grant that the election keeps: from an entry or the one it started with.
abbrev Source : List RosterEntry → Option Grant → Grant → Type 0
Source es best g = ((e : RosterEntry) × Memᴰ e es × Records e g) ⊎ (best ≡ some g)

elect-Source :
    (es : List RosterEntry) (best : Option Grant) {g : Grant}
    → elect es best ≡ some g
    → Source es best g
unfolding elect keep_grant
elect-Source [] best h = inr h
elect-Source (e ∷ es) best {g} h = elim (Option-cases (granted_role e.op)) [
  | inl skip ↦ elim (elect-Source es best (rw (skip, vote) at h)) [
    | inl (d, m, r) ↦ inl (d, Memᴰ.tail m, r)
    | inr old ↦ inr old
  ]
  | inr (role, q) ↦
      elim (elect-Source es (some (keep_grant (grant_of e role) best)) (rw (q, vote) at h)) [
        | inl (d, m, r) ↦ inl (d, Memᴰ.tail m, r)
        | inr new ↦ from_kept best role q new
      ]
]
  where
    from_kept :
        (b : Option Grant) (role : Role)
        → granted_role e.op ≡ some role
        → some (keep_grant (grant_of e role) b) ≡ some g
        → Source (e ∷ es) b g
    from_kept none role q new = inl (e, Memᴰ.head refl, (role, q, cc))
    from_kept (some u) role q new = elim (keep_grant_cases (grant_of e role) u) [
      | inl c ↦ inl (e, Memᴰ.head refl, (role, q, cc))
      | inr k ↦ inr (cc)
    ]

all_cons :
    (e : RosterEntry) (es : List RosterEntry) (g : Grant)
    → ((c : Grant) → Records e c → Outranks g c)
    → ((d : RosterEntry) (c : Grant) → Memᴰ d es → Records d c → Outranks g c)
    → (d : RosterEntry) (c : Grant) → Memᴰ d (e ∷ es)
    → Records d c
    → Outranks g c
all_cons e es g here later d c (Memᴰ.head p) r = here c (subst (λ x. Records x c) p r)
all_cons e es g here later d c (Memᴰ.tail m) r = later d c m r

Records-same :
    (e : RosterEntry) (c : Grant) (role : Role)
    → Records e c
    → granted_role e.op ≡ some role
    → c ≡ grant_of e role
Records-same e c role (role', q, same) r = ground arith

never : (e : RosterEntry) (c : Grant) → Records e c → granted_role e.op ≡ none → ⊥
never e c (role, q, same) skip = cc

-- The election only gets newer, and looks at each entry.
elect_keeps :
    (es : List RosterEntry) (u : Grant)
    → (g : Grant) × (elect es (some u) ≡ some g)
      × Outranks g u
      × ((e : RosterEntry) (c : Grant) → Memᴰ e es → Records e c → Outranks g c)
unfolding elect
elect_keeps [] u = (u, refl, Outranks-refl u, λ e c m r. elim m [ ])
elect_keeps (e ∷ es) u = elim (Option-cases (granted_role e.op)) [
  | inl skip ↦
      let (g, q, up, all) = elect_keeps es u in
      (g, rw (skip, vote) q, up, all_cons e es g (λ c m. absurd (never e c m skip)) all)
  | inr (role, r) ↦
      let v = keep_grant (grant_of e role) (some u) in
      let (g, q, up, all) = elect_keeps es v in
      let both = keep_grant-Outranks (grant_of e role) u in
      (
        g,
        rw (r, vote) q,
        Outranks-trans g v u up both.1,
        all_cons e es g (λ c m. rw (Records-same e c role m r) (Outranks-trans g v _ up both.0))
            all,
      )
]

elect_newest :
    (es : List RosterEntry) (g : Grant)
    → elect es none ≡ some g
    → (e : RosterEntry) (c : Grant) → Memᴰ e es
    → Records e c
    → Outranks g c
unfolding elect keep_grant
elect_newest [] g h = λ e c m r. elim m [ ]
elect_newest (d ∷ es) g h = elim (Option-cases (granted_role d.op)) [
  | inl skip ↦
      all_cons d es g (λ c r. absurd (never d c r skip)) (elect_newest es g (rw (skip, vote) at h))
  | inr (role, q) ↦
      let (g', q', up, all) = elect_keeps es (grant_of d role) in
      let h' : elect es (some (grant_of d role)) ≡ some g = rw (q, vote) at h in
      let same : g' ≡ g = cc in
      all_cons d es g
        (λ c r. rw (Records-same d c role r q) (subst (λ x. Outranks x (grant_of d role)) same up))
        (λ e c m r. subst (λ x. Outranks x c) same (all e c m r))
]

pub elect-some :
    (es : List RosterEntry) (best : Option Grant) (e : RosterEntry)
    → Memᴰ e es
    → is_grant e.op ≡ true
    → (g : Grant) × (elect es best ≡ some g)
unfolding elect
elect-some [] best e m t = elim m [ ]
elect-some (d ∷ es) best e m t = elim (Option-cases (vote d d.op best)) [
  | inr (u, q) ↦ let (g, k, _, _) = elect_keeps es u in (g, rw q k)
  | inl q ↦ later m q (elect-some es none e)
]
  where
    later :
        Memᴰ e (d ∷ es)
        → vote d d.op best ≡ none
        → (Memᴰ e es → is_grant e.op ≡ true → (g : Grant) × (elect es none ≡ some g))
        → (g : Grant) × (elect es (vote d d.op best) ≡ some g)
    later (Memᴰ.head p) q rest =
        let t' : is_grant d.op ≡ true = subst (λ x. is_grant x.op ≡ true) p t in
        absurd (ground arith)
    later (Memᴰ.tail n) q rest = rw q (rest n t)

pub elect_wins :
    (es : List RosterEntry) (g : Grant) → elect es none ≡ some g → IsWinner (λ e. Memᴰ e es) g
elect_wins es g h = elim (elect-Source es none h) [
  | inr bad ↦ absurd (cc)
  | inl (e, m, r) ↦ record { entry = e; counted = m; made = r; newest = elect_newest es g h }
]
