-- ===== src/Roster/Merge/Admins.antt =====
-- The first pass of `merge_roster`: the loop over admin grants ends with the least set that holds
-- the founder and is closed under the grants of its members.
use roam.Prelude.{
  ℕ, zero, suc, ◌+◌, ◌≤◌, ◌<◌, true, false, ◌&&◌, Option, none, some, List, [], ◌∷◌, length, ◌==◌,
  if◌then◌else◌, Bool-cases, ◌≡◌, ◌≢◌, refl, inl, inr, ◌↔◌, Memᴰ, arith, ==_self, ==→eq,
}
use roam.Prelude.Maps.{contains, insert, contains-insert}
use roam.Roster.Entry.{RosterEntry, derives_peer, grants_admin}
use roam.Roster.Merge.{admin_pass, admin_loop, founder_set, ever_admin_of}

-- Who may make decisions: the founder, and whom an admitted entry of such a peer makes an admin.
pub data EverAdmin (In : RosterEntry → Type 0) (founder : Option ℕ) : ℕ → Type 0 where
  founds : {p : ℕ} → founder ≡ some p → EverAdmin In founder p
  granted :
      {p : ℕ} (e : RosterEntry)
      → In e
      → grants_admin e.op ≡ true
      → EverAdmin In founder e.added_by
      → e.subject_peer ≡ p
      → EverAdmin In founder p

-- The entries that count: those whose peer id is derived from the key.
abbrev pub IsAdmitted : List RosterEntry → RosterEntry → Type 0
IsAdmitted entries e = Memᴰ e entries × (derives_peer e ≡ true)

pub EverAdmin-mono :
    {In In' : RosterEntry → Type 0} {founder : Option ℕ} {p : ℕ}
    → ((e : RosterEntry) → In e → In' e)
    → EverAdmin In founder p
    → EverAdmin In' founder p
EverAdmin-mono sub (EverAdmin.founds e) = EverAdmin.founds e
EverAdmin-mono sub (EverAdmin.granted e m g a s) =
    EverAdmin.granted e (sub e m) g (EverAdmin-mono sub a) s

abbrev step : RosterEntry → List ℕ → List ℕ
step e s = if grants_admin e.op && contains e.added_by s then insert e.subject_peer s else s

abbrev Includes : List ℕ → List ℕ → Type 0
Includes s t = (p : ℕ) → contains p s ≡ true → contains p t ≡ true

step-Includes : (e : RosterEntry) (s : List ℕ) → Includes s (step e s)
step-Includes e s p h = ground (arith, contains-insert p e.subject_peer s)

pass-Includes : (es : List RosterEntry) (s : List ℕ) → Includes s (admin_pass es s)
unfolding admin_pass
pass-Includes [] s p h = h
pass-Includes (e ∷ es) s p h = pass-Includes es (step e s) p (step-Includes e s p h)

length-step-le : (e : RosterEntry) (s : List ℕ) → length s ≤ length (step e s)
length-step-le e s = ground arith

length-pass-le : (es : List RosterEntry) (s : List ℕ) → length s ≤ length (admin_pass es s)
unfolding admin_pass
length-pass-le [] s = omega arith
length-pass-le (e ∷ es) s = omega (arith, length-step-le e s, length-pass-le es (step e s))

-- An entry whose grant is already in the set.
abbrev IsSettled : List ℕ → RosterEntry → Type 0
IsSettled s e =
    grants_admin e.op ≡ true → contains e.added_by s ≡ true → contains e.subject_peer s ≡ true

step_same : (e : RosterEntry) (s : List ℕ) → length (step e s) ≡ length s → step e s ≡ s
step_same e s h = ground arith

step-IsSettled : (e : RosterEntry) (s : List ℕ) → length (step e s) ≡ length s → IsSettled s e
step-IsSettled e s h g c = ground arith

pass-IsSettled :
    (es : List RosterEntry) (s : List ℕ)
    → length (admin_pass es s) ≡ length s
    → (admin_pass es s ≡ s) × ((e : RosterEntry) → Memᴰ e es → IsSettled s e)
unfolding admin_pass
pass-IsSettled [] s h = (refl, λ e m. elim m [ ])
pass-IsSettled (e ∷ es) s h =
    let flat : length (step e s) ≡ length s =
      omega (arith, length-step-le e s, length-pass-le es (step e s)) in
    let same = step_same e s flat in
    let (fixed, rest) = pass-IsSettled es s (rw same at h) in
    (rw same fixed, λ d m. here d m rest flat)
  where
    here :
        (d : RosterEntry)
        → Memᴰ d (e ∷ es)
        → ((c : RosterEntry) → Memᴰ c es → IsSettled s c)
        → length (step e s) ≡ length s
        → IsSettled s d
    here d (Memᴰ.head p) rest flat = rw p (step-IsSettled e s flat)
    here d (Memᴰ.tail m) rest flat = rest d m

-- How many entries have a subject outside the set: the measure of the loop.
missing : List RosterEntry → List ℕ → ℕ
missing [] s = 0
missing (e ∷ es) s = (if contains e.subject_peer s then 0 else 1) + missing es s

missing-le-length : (es : List RosterEntry) (s : List ℕ) → missing es s ≤ length es
unfolding missing
missing-le-length [] s = omega arith
missing-le-length (e ∷ es) s = ground (arith, missing-le-length es s)

missing_anti : (es : List RosterEntry) (s t : List ℕ) → Includes s t → missing es t ≤ missing es s
unfolding missing
missing_anti [] s t h = omega arith
missing_anti (e ∷ es) s t h = ground (arith, missing_anti es s t h, h e.subject_peer)

missing_lt :
    (e : RosterEntry) (es : List RosterEntry) (s t : List ℕ)
    → Includes s t
    → Memᴰ e es
    → contains e.subject_peer s ≡ false
    → contains e.subject_peer t ≡ true
    → missing es t < missing es s
unfolding missing
missing_lt e [] s t h m a b = elim m [ ]
missing_lt e (d ∷ es) s t h (Memᴰ.head p) a b =
    let a' = rw p at a in let b' = rw p at b in ground (arith, missing_anti es s t h)
missing_lt e (d ∷ es) s t h (Memᴰ.tail m) a b =
    ground (arith, missing_lt e es s t h m a b, h d.subject_peer)

-- A round that grows the set adds the subject of an entry.
pass_grows :
    (es : List RosterEntry) (s : List ℕ)
    → length (admin_pass es s) ≢ length s
    → (e : RosterEntry) × Memᴰ e es
      × (contains e.subject_peer s ≡ false)
      × (contains e.subject_peer (admin_pass es s) ≡ true)
unfolding admin_pass
pass_grows [] s h = absurd (h refl)
pass_grows (e ∷ es) s h = elim (Bool-cases (grants_admin e.op && contains e.added_by s)) [
  | inr skip ↦ later (pass_grows es s) (rw skip)
  | inl acts ↦ elim (Bool-cases (contains e.subject_peer s)) [
    | inl old ↦ later (pass_grows es s) (rw (acts, old))
    | inr new ↦ (
      e,
      Memᴰ.head refl,
      new,
      pass-Includes es (step e s) e.subject_peer (rw (acts, new) (rw (==_self e.subject_peer))),
    )
  ]
]
  where
    later :
        (length (admin_pass es s) ≢ length s
          → (d : RosterEntry) × Memᴰ d es
            × (contains d.subject_peer s ≡ false)
            × (contains d.subject_peer (admin_pass es s) ≡ true))
        → step e s ≡ s
        → (d : RosterEntry) × Memᴰ d (e ∷ es)
          × (contains d.subject_peer s ≡ false)
          × (contains d.subject_peer (admin_pass es (step e s)) ≡ true)
    later ih same = let (d, m, new, got) = ih (rw same at h) in (d, Memᴰ.tail m, new, rw same got)

abbrev IsClosed : List RosterEntry → List ℕ → Type 0
IsClosed es s = (e : RosterEntry) → Memᴰ e es → IsSettled s e

-- With fuel above the measure the loop ends by its test: one more round would change nothing.
loop-IsClosed :
    (fuel : ℕ) (valid : List RosterEntry) (s : List ℕ)
    → missing valid s < fuel
    → IsClosed valid (admin_loop fuel valid s)
unfolding admin_loop
loop-IsClosed zero valid s h = absurd (omega arith)
loop-IsClosed (suc fuel) valid s h = elim (Bool-cases (length (admin_pass valid s) == length s)) [
  | inl done ↦
      let (fixed, settled) = pass-IsSettled valid s (==→eq _ _ done) in rw done (rw fixed settled)
  | inr more ↦
      let (e, m, new, got) = pass_grows valid s (λ e. ground (arith, more, e)) in
      rw more (
        loop-IsClosed fuel valid (admin_pass valid s) (
          omega
            (arith, missing_lt e valid s (admin_pass valid s) (pass-Includes valid s) m new got)))
]

loop-Includes :
    (fuel : ℕ) (valid : List RosterEntry) (s : List ℕ) → Includes s (admin_loop fuel valid s)
unfolding admin_loop
loop-Includes zero valid s p h = h
loop-Includes (suc fuel) valid s p h =
    let step_in = pass-Includes valid s p h in
    ground (arith, loop-Includes fuel valid (admin_pass valid s) p step_in)

-- Everything in the set is an admin by the specification.
abbrev IsSound : (RosterEntry → Type 0) → Option ℕ → List ℕ → Type 0
IsSound In founder s = (p : ℕ) → contains p s ≡ true → EverAdmin In founder p

module _ {In : RosterEntry → Type 0} {founder : Option ℕ} where
  step-IsSound :
      (e : RosterEntry) (s : List ℕ) → In e → IsSound In founder s → IsSound In founder (step e s)
  step-IsSound e s m sound p h = elim (Bool-cases (grants_admin e.op && contains e.added_by s)) [
    | inr skip ↦ sound p (rw skip at h)
    | inl acts ↦ elim (Bool-cases (p == e.subject_peer)) [
      | inl same ↦
          EverAdmin.granted e m (ground arith) (sound e.added_by (ground arith))
            (ground (arith, ==→eq p e.subject_peer same))
      | inr other ↦
          let h' = rw acts at h in sound p (ground (arith, contains-insert p e.subject_peer s))
    ]
  ]

  pass-IsSound :
      (es : List RosterEntry) (s : List ℕ)
      → ((e : RosterEntry) → Memᴰ e es → In e)
      → IsSound In founder s
      → IsSound In founder (admin_pass es s)
  unfolding admin_pass
  pass-IsSound [] s ins sound = sound
  pass-IsSound (e ∷ es) s ins sound =
      pass-IsSound es (step e s) (λ d m. ins d (Memᴰ.tail m))
        (step-IsSound e s (ins e (Memᴰ.head refl)) sound)

  loop-IsSound :
      (fuel : ℕ) (valid : List RosterEntry) (s : List ℕ)
      → ((e : RosterEntry) → Memᴰ e valid → In e)
      → IsSound In founder s
      → IsSound In founder (admin_loop fuel valid s)
  unfolding admin_loop
  loop-IsSound zero valid s ins sound = sound
  loop-IsSound (suc fuel) valid s ins sound =
      let sound' = pass-IsSound valid s ins sound in
      elim (Bool-cases (length (admin_pass valid s) == length s)) [
        | inl done ↦ rw done sound'
        | inr more ↦ rw more (loop-IsSound fuel valid (admin_pass valid s) ins sound')
      ]

founder_set-IsSound :
    {In : RosterEntry → Type 0} (founder : Option ℕ) → IsSound In founder (founder_set founder)
unfolding founder_set
founder_set-IsSound none p h = absurd (ground arith)
founder_set-IsSound (some f) p h = EverAdmin.founds (ground arith)

EverAdmin→contains :
    {founder : Option ℕ} (valid : List RosterEntry) (s : List ℕ) {p : ℕ}
    → Includes (founder_set founder) s
    → IsClosed valid s
    → EverAdmin (λ e. Memᴰ e valid) founder p
    → contains p s ≡ true
unfolding founder_set
EverAdmin→contains {founder} valid s {p} base closed (EverAdmin.founds f) =
    base p (rw f (ground (arith, ==_self p)))
EverAdmin→contains valid s base closed (EverAdmin.granted e m g a same) =
    rw (← same) (closed e m g (EverAdmin→contains valid s base closed a))

-- The set that the loop computes is exactly the set of admins of the specification: the founder,
-- and whom an admin granted the admin role.
pub ever_admin_of_iff :
    (valid : List RosterEntry) (founder : Option ℕ) (p : ℕ)
    → (contains p (ever_admin_of valid founder) ≡ true) ↔ EverAdmin (λ e. Memᴰ e valid) founder p
unfolding ever_admin_of
ever_admin_of_iff valid founder p =
    let fuel = suc (length valid) in
    let start = founder_set founder in
    (
      loop-IsSound fuel valid start (λ e m. m) (founder_set-IsSound founder) p,
      EverAdmin→contains valid (admin_loop fuel valid start) (loop-Includes fuel valid start)
          (loop-IsClosed fuel valid start (omega (arith, missing-le-length valid start))),
    )
