-- ===== src/Roster/Merge/Ceilings.antt =====
-- The gap rule of `merge_roster`: the ceiling of a subject's clock is the end of the contiguous run
-- of lamports that starts at the lowest one.
use roam.Prelude.{
  ℕ, zero, suc, ◌+◌, ◌-◌, ◌%◌, ◌^◌, ◌≤◌, ◌<◌, true, false, ◌||◌, none, some, List, [], ◌∷◌, ◌==◌,
  Bool-cases, ◌≡◌, refl, inl, inr, ◌↔◌, arith, ==_self, leb, ◌∙◌, ap, All, Memᴰ, mem_of_select,
}
use roam.Prelude.Maps.{
  contains, lookup, upsert, IsAscending, Above-lookup, lookup-upsert, upsert-IsAscending,
}
use roam.Prelude.Sets.{AllAbove, IsSortedSet, lt_of_contains}
use roam.Roster.Entry.{RosterEntry}
use roam.Roster.Merge.{ceiling_from, ceilings_of, ceiling_at, ceilings_for, lamports_of}
use roam.Roster.Merge.Decisions.{
  slot, decides, decisions, gather, gather-IsSortedSet, contains-gather_of_mem, of_contains-gather,
  lamports_of-IsAscending, slot-lamports_of,
}

-- The clock values that the gap rule admits, as a specification over any set of values: the lowest,
-- and each that follows an admitted one by one.
pub data IsGrounded (S : ℕ → Type 0) : ℕ → Type 0 where
  floor : {l : ℕ} → S l → ((x : ℕ) → S x → l ≤ x) → IsGrounded S l
  next : {l k : ℕ} → IsGrounded S l → S k → k ≡ l + 1 → IsGrounded S k

pub IsGrounded_map :
    {S T : ℕ → Type 0} {l : ℕ}
    → ((x : ℕ) → S x → T x)
    → ((x : ℕ) → T x → S x)
    → IsGrounded S l
    → IsGrounded T l
IsGrounded_map to from (IsGrounded.floor s low) =
    IsGrounded.floor (to _ s) (λ x t. low x (from x t))
IsGrounded_map to from (IsGrounded.next g s e) =
    IsGrounded.next (IsGrounded_map to from g) (to _ s) e

-- What the loop has found when it goes on from `c` over the values above it.
record IsRun (c : ℕ) (set : List ℕ) (end : ℕ) : Type 0 where
  reaches : c ≤ end
  full : (l : ℕ) → c < l → l ≤ end → contains l set ≡ true
  stops : contains (end + 1) set ≡ false

not_contains : (b a : ℕ) (xs : List ℕ) → AllAbove b xs → a ≤ b → contains a xs ≡ false
not_contains b a [] h le = refl
not_contains b a (x ∷ xs) h le = ground (arith, not_contains b a xs h.1)

-- The lamports ascend and are 64-bit words, so `ceiling + 1` does not overflow.
ceiling_from-IsRun :
    (i c : ℕ) (set : List ℕ)
    → 0 < i
    → AllAbove c set
    → IsSortedSet set
    → All (λ l. l < 2 ^ 64) set
    → IsRun c set (ceiling_from i c set)
unfolding ceiling_from
ceiling_from-IsRun i c [] pos up sorted words = record {
  reaches = omega arith;
  full = λ l a b. absurd (omega arith);
  stops = refl;
}
ceiling_from-IsRun i c (l ∷ set) pos up sorted words =
    elim (Bool-cases (i == 0 || leb l ((c + 1) % 2 ^ 64))) [
      | inl on ↦ rw on (
          longer (ceiling_from-IsRun (i + 1) l set (omega arith) sorted.0 sorted.1 words.1)
            (follows on))
      | inr off ↦ rw off (record {
        reaches = omega arith;
        full = λ k a b. absurd (omega arith);
        stops = ground (arith, not_contains l (c + 1) set sorted.0, off);
      })
    ]
  where
    follows : (i == 0 || leb l ((c + 1) % 2 ^ 64)) ≡ true → l ≡ c + 1
    follows on = ground arith

    longer : {end : ℕ} → IsRun l set end → l ≡ c + 1 → IsRun c (l ∷ set) end
    longer r e = record {
      reaches = omega (arith, r.reaches);
      full = λ k a b. elim (Bool-cases (k == l)) [
        | inl same ↦ rw same
        | inr other ↦ rw other (r.full k (ground arith) b)
      ];
      stops = ground (arith, r.stops, r.reaches);
    }

-- The ceiling of a set of words, from the first round on.
abbrev IsCeiling : List ℕ → ℕ → Type 0
IsCeiling set end =
    (l : ℕ) → contains l set ≡ true → (l ≤ end) ↔ IsGrounded (λ x. contains x set ≡ true) l

run-IsGrounded :
    (c : ℕ) (set : List ℕ) (end : ℕ)
    → AllAbove c set
    → IsRun c set end
    → (k : ℕ) → c + k ≤ end
    → IsGrounded (λ x. contains x (c ∷ set) ≡ true) (c + k)
run-IsGrounded c set end up r zero h = IsGrounded.floor (ground (arith, ==_self c)) (λ x m. low x m)
  where
    low : (x : ℕ) → contains x (c ∷ set) ≡ true → c + 0 ≤ x
    low x m = ground (arith, lt_of_contains c x set up)
run-IsGrounded c set end up r (suc k) h =
    IsGrounded.next (run-IsGrounded c set end up r k (omega arith))
      (ground (arith, r.full (c + suc k))) (omega arith)

IsGrounded-le :
    (c : ℕ) (set : List ℕ) (end : ℕ)
    → AllAbove c set
    → IsRun c set end
    → {l : ℕ} → IsGrounded (λ x. contains x (c ∷ set) ≡ true) l
    → l ≤ end
IsGrounded-le c set end up r (IsGrounded.floor s low) =
    omega (arith, low c (rw (==_self c)), r.reaches)
IsGrounded-le c set end up r (IsGrounded.next {l = l} {k = k} g s e) =
    let below = IsGrounded-le c set end up r g in
    ground (arith, r.stops, r.reaches, lt_of_contains c k set up)

ceiling_from-IsCeiling :
    (set : List ℕ)
    → IsSortedSet set
    → All (λ l. l < 2 ^ 64) set
    → IsCeiling set (ceiling_from 0 0 set)
unfolding ceiling_from
ceiling_from-IsCeiling [] sorted words l m = absurd (ground arith)
ceiling_from-IsCeiling (c ∷ set) sorted words l m =
    let r = ceiling_from-IsRun 1 c set (omega arith) sorted.0 sorted.1 words.1 in
    (λ le. subst_k (run-IsGrounded c set _ sorted.0 r (l - c)) le, IsGrounded-le c set _ sorted.0 r)
  where
    subst_k :
        (c + (l - c) ≤ ceiling_from 1 c set
          → IsGrounded (λ x. contains x (c ∷ set) ≡ true) (c + (l - c)))
        → l ≤ ceiling_from 1 c set
        → IsGrounded (λ x. contains x (c ∷ set) ≡ true) l
    subst_k g le =
        let e : c + (l - c) ≡ l = ground (arith, lt_of_contains c l set sorted.0) in
        rw e at (g (omega arith))

lookup-ceilings_of :
    (p : ℕ) (m : List (ℕ × List ℕ)) (acc : List (ℕ × ℕ))
    → IsAscending m
    → IsAscending acc
    → lookup p (ceilings_of m acc)
      ≡ elim (lookup p m) [ none ↦ lookup p acc | some set ↦ some (ceiling_from 0 0 set) ]
unfolding ceilings_of
lookup-ceilings_of p [] acc h k = refl
lookup-ceilings_of p ((s, set) ∷ m) acc h k = ground (
  arith,
  lookup-ceilings_of p m (upsert s (λ _. ceiling_from 0 0 set) acc) h.1
      (upsert-IsAscending s (λ _. ceiling_from 0 0 set) acc k),
  lookup-upsert s (λ _. ceiling_from 0 0 set) p acc k,
  Above-lookup s p m h.0,
)

ceiling_at-ceilings_of :
    (p : ℕ) (m : List (ℕ × List ℕ))
    → IsAscending m
    → ceiling_at (ceilings_of m []) p ≡ ceiling_from 0 0 (slot p m)
unfolding ceiling_at ceiling_from
ceiling_at-ceilings_of p m h = ground (arith, lookup-ceilings_of p m [] h tt)

-- The clock values of the decisions about `p`.
abbrev pub Clock : List ℕ → List RosterEntry → ℕ → ℕ → Type 0
Clock admins valid p l = (e : RosterEntry) × Memᴰ e (decisions admins p valid) × (e.lamport ≡ l)

abbrev pub HasWords : List RosterEntry → Type 0
HasWords es = (e : RosterEntry) → Memᴰ e es → e.lamport < 2 ^ 64

module _ (admins : List ℕ) (valid : List RosterEntry) (p : ℕ) (words : HasWords valid) where
  abbrev run_set : List ℕ
  run_set = gather (decisions admins p valid) []

  of_run_set : (l : ℕ) → contains l run_set ≡ true → Clock admins valid p l
  of_run_set l h = elim (of_contains-gather l (decisions admins p valid) [] h) [
    | inl found ↦ found
    | inr bad ↦ absurd (ground arith)
  ]

  to_run_set : (l : ℕ) → Clock admins valid p l → contains l run_set ≡ true
  to_run_set l (e, m, q) = rw (← q) (contains-gather_of_mem e (decisions admins p valid) [] m)

  All-words :
      (set : List ℕ) → ((l : ℕ) → contains l set ≡ true → l < 2 ^ 64) → All (λ l. l < 2 ^ 64) set
  All-words [] h = tt
  All-words (l ∷ set) h = (h l (rw (==_self l)), All-words set (λ k m. h k (ground (arith, m))))

  run_word : (l : ℕ) → contains l run_set ≡ true → l < 2 ^ 64
  run_word l h =
      let (e, m, q) = of_run_set l h in
      rw q at (words e (mem_of_select (decides admins p) valid m).0)

  -- Where all clocks have 64 bits, a decision's clock passes the ceiling test exactly when the gap
  -- rule admits it.
  pub ceiling_iff :
      (e : RosterEntry)
      → Memᴰ e (decisions admins p valid)
      → (e.lamport ≤ ceiling_at (ceilings_for admins valid) p)
        ↔ IsGrounded (Clock admins valid p) e.lamport
  unfolding ceilings_for
  ceiling_iff e m =
      let lamports = lamports_of admins valid [] in
      let at_p = ceiling_at-ceilings_of p lamports (lamports_of-IsAscending admins valid [] tt) in
      let iff =
        ceiling_from-IsCeiling run_set (gather-IsSortedSet (decisions admins p valid) [] tt)
          (All-words run_set run_word) e.lamport
          (contains-gather_of_mem e (decisions admins p valid) [] m) in
      let same : ceiling_at (ceilings_of lamports []) p ≡ ceiling_from 0 0 run_set =
        at_p ∙ ap (ceiling_from 0 0) (slot-lamports_of admins p valid [] tt) in
      rw same (
        (λ le. IsGrounded_map of_run_set to_run_set (iff.0 le)),
        (λ g. iff.1 (IsGrounded_map to_run_set of_run_set g)),
      )

  lowest :
      (set : List ℕ)
      → IsSortedSet set
      → (l : ℕ) → contains l set ≡ true
      → (c : ℕ) × (contains c set ≡ true) × ((x : ℕ) → contains x set ≡ true → c ≤ x)
  lowest [] sorted l h = absurd (ground arith)
  lowest (c ∷ set) sorted l h =
      (c, rw (==_self c), λ x m. ground (arith, lt_of_contains c x set sorted.0))

  -- Where there is a decision, the lowest clock value is admitted.
  pub some_grounded :
      (e : RosterEntry)
      → Memᴰ e (decisions admins p valid)
      → (d : RosterEntry) × Memᴰ d (decisions admins p valid)
        × IsGrounded (Clock admins valid p) d.lamport
  some_grounded e m =
      let (c, at_c, low) =
        lowest run_set (gather-IsSortedSet (decisions admins p valid) [] tt) e.lamport
          (contains-gather_of_mem e (decisions admins p valid) [] m) in
      let (d, n, q) = of_run_set c at_c in
      (d, n, rw q (IsGrounded.floor (d, n, q) (λ x k. low x (to_run_set x k))))
