-- ===== src/Roster/Merge/Keys.antt =====
-- The keys that `merge_roster` gathers: for each subject the least of those that admins' entries
-- name, so that a subject with a role always has one.
use roam.Prelude.{
  ℕ, Bool, true, false, ◌&&◌, Option, none, some, List, [], ◌∷◌, ◌==◌, if◌then◌else◌, Bool-cases,
  ◌≡◌, refl, ◌⊎◌, inl, inr, Memᴰ, arith, ◌∙◌, ap, select,
}
use roam.Prelude.Maps.{contains, lookup, upsert, IsAscending, lookup-upsert, upsert-IsAscending}
use roam.Roster.Entry.{RosterEntry, RosterOp, add, set_role, revoke, set_name}
use roam.Roster.Merge.{Fold, empty_fold, bytes_ltb, keep_key, fold_op, fold_entry, fold_entries}

bytes_ltb_irrefl : (a : List ℕ) → bytes_ltb a a ≡ false
unfolding bytes_ltb
bytes_ltb_irrefl [] = refl
bytes_ltb_irrefl (x ∷ a) = ground (arith, bytes_ltb_irrefl a)

bytes_ltb_trichotomy : (a b : List ℕ) → bytes_ltb a b ≡ false → bytes_ltb b a ≡ false → a ≡ b
unfolding bytes_ltb
bytes_ltb_trichotomy [] [] h k = refl
bytes_ltb_trichotomy [] (y ∷ b) h k = absurd (ground arith)
bytes_ltb_trichotomy (x ∷ a) [] h k = absurd (ground arith)
bytes_ltb_trichotomy (x ∷ a) (y ∷ b) h k = ground (arith, bytes_ltb_trichotomy a b)

-- `b` is not above `a`, and `c` not above `b`.
bytes_le_trans :
    (a b c : List ℕ) → bytes_ltb b a ≡ false → bytes_ltb c b ≡ false → bytes_ltb c a ≡ false
unfolding bytes_ltb
bytes_le_trans [] b [] h k = refl
bytes_le_trans [] b (z ∷ c) h k = refl
bytes_le_trans (x ∷ a) [] c h k = absurd (ground arith)
bytes_le_trans (x ∷ a) (y ∷ b) [] h k = absurd (ground arith)
bytes_le_trans (x ∷ a) (y ∷ b) (z ∷ c) h k = ground (arith, bytes_le_trans a b c)

bytes_ltb_asymm : (a b : List ℕ) → bytes_ltb a b ≡ true → bytes_ltb b a ≡ false
unfolding bytes_ltb
bytes_ltb_asymm [] [] h = refl
bytes_ltb_asymm [] (y ∷ b) h = refl
bytes_ltb_asymm (x ∷ a) [] h = absurd (ground arith)
bytes_ltb_asymm (x ∷ a) (y ∷ b) h = ground (arith, bytes_ltb_asymm a b)

-- The entries about a subject that an admin wrote.
abbrev pub speaks : List ℕ → ℕ → RosterEntry → Bool
speaks admins p e = contains e.added_by admins && e.subject_peer == p

abbrev pub about : List ℕ → ℕ → List RosterEntry → List RosterEntry
about admins p es = select (speaks admins p) es

-- The least key among the entries.
pub record IsLeastKey (In : RosterEntry → Type 0) (key : List ℕ) : Type 0 where
  pub entry : RosterEntry
  pub counted : In entry
  pub named : key ≡ entry.subject_key
  pub least : (e : RosterEntry) → In e → bytes_ltb e.subject_key key ≡ false

pub IsLeastKey_unique :
    {In : RosterEntry → Type 0} (j k : List ℕ) → IsLeastKey In j → IsLeastKey In k → j ≡ k
IsLeastKey_unique j k v w =
    bytes_ltb_trichotomy j k (rw v.named (w.least v.entry v.counted))
      (rw w.named (v.least w.entry w.counted))

pub IsLeastKey_map :
    {In In' : RosterEntry → Type 0} {k : List ℕ}
    → ((e : RosterEntry) → In e → In' e)
    → ((e : RosterEntry) → In' e → In e)
    → IsLeastKey In k
    → IsLeastKey In' k
IsLeastKey_map to from w = record {
  entry = w.entry;
  counted = to w.entry w.counted;
  named = w.named;
  least = λ e m. w.least e (from e m);
}

least_key : List RosterEntry → Option (List ℕ) → Option (List ℕ)
least_key [] best = best
least_key (e ∷ es) best = least_key es (some (keep_key e.subject_key best))

keep_key-le :
    (j k : List ℕ)
    → (bytes_ltb j (keep_key j (some k)) ≡ false) × (bytes_ltb k (keep_key j (some k)) ≡ false)
unfolding keep_key
keep_key-le j k = ground (arith, bytes_ltb_irrefl j, bytes_ltb_irrefl k, bytes_ltb_asymm j k)

keep_key_cases : (j k : List ℕ) → (keep_key j (some k) ≡ j) ⊎ (keep_key j (some k) ≡ k)
unfolding keep_key
keep_key_cases j k = ground arith

abbrev Named : List RosterEntry → List ℕ → Type 0
Named es key = (e : RosterEntry) × Memᴰ e es × (key ≡ e.subject_key)

least_key_lem :
    (es : List RosterEntry) (k : List ℕ)
    → (key : List ℕ) × (least_key es (some k) ≡ some key)
      × (Named es key ⊎ (key ≡ k))
      × (bytes_ltb k key ≡ false)
      × ((e : RosterEntry) → Memᴰ e es → bytes_ltb e.subject_key key ≡ false)
unfolding least_key
least_key_lem [] k = (k, refl, inr refl, bytes_ltb_irrefl k, λ e m. elim m [ ])
least_key_lem (d ∷ es) k =
    let k' = keep_key d.subject_key (some k) in
    let (key, q, from, low, all) = least_key_lem es k' in
    let (lo_d, lo_k) = keep_key-le d.subject_key k in
    (
      key,
      q,
      source from (keep_key_cases d.subject_key k),
      bytes_le_trans key k' k low lo_k,
      λ e m. each key e m all (bytes_le_trans key k' d.subject_key low lo_d),
    )
  where
    each :
        (key : List ℕ) (e : RosterEntry)
        → Memᴰ e (d ∷ es)
        → ((c : RosterEntry) → Memᴰ c es → bytes_ltb c.subject_key key ≡ false)
        → bytes_ltb d.subject_key key ≡ false
        → bytes_ltb e.subject_key key ≡ false
    each key e (Memᴰ.head p) all low = rw p low
    each key e (Memᴰ.tail m) all low = all e m

    source :
        {key : List ℕ}
        → Named es key ⊎ (key ≡ keep_key d.subject_key (some k))
        → (keep_key d.subject_key (some k) ≡ d.subject_key) ⊎ (keep_key d.subject_key (some k) ≡ k)
        → Named (d ∷ es) key ⊎ (key ≡ k)
    source (inl (e, m, q)) c = inl (e, Memᴰ.tail m, q)
    source (inr q) (inl c) = inl (d, Memᴰ.head refl, q ∙ c)
    source (inr q) (inr c) = inr (q ∙ c)

least_key_of_mem :
    (e : RosterEntry) (es : List RosterEntry)
    → Memᴰ e es
    → (key : List ℕ) × (least_key es none ≡ some key) × IsLeastKey (λ d. Memᴰ d es) key
unfolding least_key keep_key
least_key_of_mem e [] m = elim m [ ]
least_key_of_mem e (d ∷ es) m =
    let (key, q, from, low, all) = least_key_lem es d.subject_key in
    (key, q, built key from low all)
  where
    lowest :
        (key : List ℕ)
        → bytes_ltb d.subject_key key ≡ false
        → ((c : RosterEntry) → Memᴰ c es → bytes_ltb c.subject_key key ≡ false)
        → (c : RosterEntry) → Memᴰ c (d ∷ es)
        → bytes_ltb c.subject_key key ≡ false
    lowest key low all c (Memᴰ.head p) = rw p low
    lowest key low all c (Memᴰ.tail n) = all c n

    built :
        (key : List ℕ)
        → Named es key ⊎ (key ≡ d.subject_key)
        → bytes_ltb d.subject_key key ≡ false
        → ((c : RosterEntry) → Memᴰ c es → bytes_ltb c.subject_key key ≡ false)
        → IsLeastKey (λ c. Memᴰ c (d ∷ es)) key
    built key (inl (c, n, q)) low all = record {
      entry = c;
      counted = Memᴰ.tail n;
      named = q;
      least = lowest key low all;
    }
    built key (inr q) low all = record {
      entry = d;
      counted = Memᴰ.head refl;
      named = q;
      least = lowest key low all;
    }

module _ (admins : List ℕ) (ceilings : List (ℕ × ℕ)) where
  keys-fold_op :
      (e : RosterEntry) (op : RosterOp) (st : Fold) → (fold_op ceilings e op st).keys ≡ st.keys
  unfolding fold_op
  keys-fold_op e (add role) st = refl
  keys-fold_op e (set_role role) st = refl
  keys-fold_op e revoke st = refl
  keys-fold_op e (set_name n) st = refl

  keys-fold_entry :
      (e : RosterEntry) (st : Fold)
      → (fold_entry admins ceilings e st).keys ≡ (
          if contains e.added_by admins
          then upsert e.subject_peer (keep_key e.subject_key) st.keys
          else st.keys)
  unfolding fold_entry
  keys-fold_entry e st = elim (Bool-cases (contains e.added_by admins)) [
    | inl t ↦ rw t (
        keys-fold_op e e.op
          (record st { keys = upsert e.subject_peer (keep_key e.subject_key) st.keys }))
    | inr f ↦ rw f refl
  ]

  keys-fold_entry-IsAscending :
      (e : RosterEntry) (st : Fold)
      → IsAscending st.keys
      → IsAscending (fold_entry admins ceilings e st).keys
  keys-fold_entry-IsAscending e st h =
      rw (keys-fold_entry e st)
        (ground (arith, upsert-IsAscending e.subject_peer (keep_key e.subject_key) st.keys h))

  lookup-fold_entry_keys :
      (p : ℕ) (e : RosterEntry) (st : Fold)
      → IsAscending st.keys
      → lookup p (fold_entry admins ceilings e st).keys ≡ (
          if speaks admins p e
          then some (keep_key e.subject_key (lookup p st.keys))
          else lookup p st.keys)
  lookup-fold_entry_keys p e st h =
      rw (keys-fold_entry e st)
        (ground (arith, lookup-upsert e.subject_peer (keep_key e.subject_key) p st.keys h))

  lookup-fold_entries_keys :
      (p : ℕ) (es : List RosterEntry) (st : Fold)
      → IsAscending st.keys
      → lookup p (fold_entries admins ceilings es st).keys
        ≡ least_key (about admins p es) (lookup p st.keys)
  unfolding fold_entries least_key
  lookup-fold_entries_keys p [] st h = refl
  lookup-fold_entries_keys p (e ∷ es) st h =
      let rest =
        lookup-fold_entries_keys p es (fold_entry admins ceilings e st)
          (keys-fold_entry-IsAscending e st h) in
      let one = lookup-fold_entry_keys p e st h in
      elim (Bool-cases (speaks admins p e)) [
        | inl t ↦ rw t (rest ∙ ap (least_key (about admins p es)) (rw t at one))
        | inr f ↦ rw f (rest ∙ ap (least_key (about admins p es)) (rw f at one))
      ]

  -- A subject about which an admin wrote has a key: the least that such an entry names.
  pub lookup-keys :
      (p : ℕ) (es : List RosterEntry) (e : RosterEntry)
      → Memᴰ e (about admins p es)
      → (key : List ℕ) × (lookup p (fold_entries admins ceilings es empty_fold).keys ≡ some key)
        × IsLeastKey (λ d. Memᴰ d (about admins p es)) key
  lookup-keys p es e m =
      let at_p = lookup-fold_entries_keys p es empty_fold tt in
      let (key, q, least) = least_key_of_mem e (about admins p es) m in (key, at_p ∙ q, least)
