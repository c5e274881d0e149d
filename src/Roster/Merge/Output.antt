-- ===== src/Roster/Merge/Output.antt =====
-- The end of `merge_roster`: the records are built without a missing key, one for each role, and
-- come out in ascending order of their peer ids.
use roam.Prelude.{
  ℕ, ◌<◌, some, List, [], ◌∷◌, ◌==◌, Bool-cases, Option-cases, ◌≡◌, refl, ◌⊎◌, inl, inr, Memᴰ,
  arith, ==_self, ◌∙◌, ap, leb, subst,
}
use roam.Prelude.Maps.{lookup, IsAscending, Above, Above-lookup}
use roam.Roster.Entry.{PeerRecord}
use roam.Roster.Merge.{Fold, Grant, make_record, record_of, records_of, insert_peer, sort_by_peer}

abbrev Names : Type 0
Names = List (ℕ × (ℕ × List ℕ))

mem-insert_peer :
    (r s : PeerRecord) (rs : List PeerRecord) → Memᴰ s (insert_peer r rs) → (s ≡ r) ⊎ Memᴰ s rs
unfolding insert_peer
mem-insert_peer r s [] (Memᴰ.head e) = inl e
mem-insert_peer r s [] (Memᴰ.tail m) = elim m [ ]
mem-insert_peer r s (t ∷ rs) m = elim (Bool-cases (leb r.peer_id t.peer_id)) [
  | inl le ↦ front (rw le at m)
  | inr gt ↦ back (rw gt at m) (mem-insert_peer r s rs)
]
  where
    front : Memᴰ s (r ∷ t ∷ rs) → (s ≡ r) ⊎ Memᴰ s (t ∷ rs)
    front (Memᴰ.head e) = inl e
    front (Memᴰ.tail n) = inr n

    back :
        Memᴰ s (t ∷ insert_peer r rs)
        → (Memᴰ s (insert_peer r rs) → (s ≡ r) ⊎ Memᴰ s rs)
        → (s ≡ r) ⊎ Memᴰ s (t ∷ rs)
    back (Memᴰ.head e) ih = inr (Memᴰ.head e)
    back (Memᴰ.tail n) ih = elim (ih n) [ inl e ↦ inl e | inr k ↦ inr (Memᴰ.tail k) ]

insert_peer-mem :
    (r s : PeerRecord) (rs : List PeerRecord) → (s ≡ r) ⊎ Memᴰ s rs → Memᴰ s (insert_peer r rs)
unfolding insert_peer
insert_peer-mem r s [] (inl e) = Memᴰ.head e
insert_peer-mem r s [] (inr m) = elim m [ ]
insert_peer-mem r s (t ∷ rs) h = elim (Bool-cases (leb r.peer_id t.peer_id)) [
  | inl le ↦ rw le (front h)
  | inr gt ↦ rw gt (back h (insert_peer-mem r s rs))
]
  where
    front : (s ≡ r) ⊎ Memᴰ s (t ∷ rs) → Memᴰ s (r ∷ t ∷ rs)
    front (inl e) = Memᴰ.head e
    front (inr m) = Memᴰ.tail m

    back :
        (s ≡ r) ⊎ Memᴰ s (t ∷ rs)
        → ((s ≡ r) ⊎ Memᴰ s rs → Memᴰ s (insert_peer r rs))
        → Memᴰ s (t ∷ insert_peer r rs)
    back (inl e) ih = Memᴰ.tail (ih (inl e))
    back (inr (Memᴰ.head e)) ih = Memᴰ.head e
    back (inr (Memᴰ.tail m)) ih = Memᴰ.tail (ih (inr m))

pub mem_of_sort : (s : PeerRecord) (rs : List PeerRecord) → Memᴰ s (sort_by_peer rs) → Memᴰ s rs
unfolding sort_by_peer
mem_of_sort s [] m = elim m [ ]
mem_of_sort s (r ∷ rs) m = elim (mem-insert_peer r s (sort_by_peer rs) m) [
  | inl e ↦ Memᴰ.head e
  | inr n ↦ Memᴰ.tail (mem_of_sort s rs n)
]

pub sort-mem : (s : PeerRecord) (rs : List PeerRecord) → Memᴰ s rs → Memᴰ s (sort_by_peer rs)
unfolding sort_by_peer
sort-mem s [] m = elim m [ ]
sort-mem s (r ∷ rs) (Memᴰ.head e) = insert_peer-mem r s (sort_by_peer rs) (inl e)
sort-mem s (r ∷ rs) (Memᴰ.tail m) = insert_peer-mem r s (sort_by_peer rs) (inr (sort-mem s rs m))

-- Strictly ascending peer ids, so one record for each peer.
abbrev pub PeersAbove : ℕ → List PeerRecord → Type 0
PeersAbove b [] = Unit
PeersAbove b (r ∷ rs) = (b < r.peer_id) × PeersAbove b rs

abbrev pub HasAscendingPeers : List PeerRecord → Type 0
HasAscendingPeers [] = Unit
HasAscendingPeers (r ∷ rs) = PeersAbove r.peer_id rs × HasAscendingPeers rs

-- A list in order is sorted already.
insert_peer_front :
    (r : PeerRecord) (rs : List PeerRecord) → PeersAbove r.peer_id rs → insert_peer r rs ≡ r ∷ rs
unfolding insert_peer
insert_peer_front r [] h = refl
insert_peer_front r (s ∷ rs) h = ground arith

pub sort_of_ascending : (rs : List PeerRecord) → HasAscendingPeers rs → sort_by_peer rs ≡ rs
unfolding sort_by_peer
sort_of_ascending [] h = refl
sort_of_ascending (r ∷ rs) h = rw (sort_of_ascending rs h.1) (insert_peer_front r rs h.0)

module _ (st : Fold) (names : Names) where
  -- Every role's subject has a key.
  abbrev HasKeys : List (ℕ × Grant) → Type 0
  HasKeys roles =
      (p : ℕ) (g : Grant) → Memᴰ (p, g) roles → (k : List ℕ) × (lookup p st.keys ≡ some k)

  record_of_total :
      (p : ℕ) (g : Grant) (k : List ℕ)
      → lookup p st.keys ≡ some k
      → (r : PeerRecord) × (record_of st names p g ≡ some r)
  unfolding record_of
  record_of_total p g k h = (make_record st names p g k, rw (h, record_of))

  pub records_of_total :
      (roles : List (ℕ × Grant))
      → HasKeys roles
      → (rs : List PeerRecord) × (records_of st names roles ≡ some rs)
  unfolding records_of
  records_of_total [] h = ([], refl)
  records_of_total ((p, g) ∷ roles) h =
      let (k, at_k) = h p g (Memᴰ.head refl) in
      let (r, at_r) = record_of_total p g k at_k in
      let (rs, at_rs) = records_of_total roles (λ q d m. h q d (Memᴰ.tail m)) in
      (r ∷ rs, rw (at_r, records_of) (rw at_rs))

  pub peer_id-record_of :
      (p : ℕ) (g : Grant) (r : PeerRecord) → record_of st names p g ≡ some r → r.peer_id ≡ p
  unfolding record_of
  peer_id-record_of p g r h = ground arith

  -- The records that the roles give, one for each.
  data Built : List (ℕ × Grant) → List PeerRecord → Type 0 where
    nothing : Built [] []
    one_more :
        {p : ℕ} {g : Grant} {roles : List (ℕ × Grant)} {r : PeerRecord} {rs : List PeerRecord}
        → record_of st names p g ≡ some r
        → Built roles rs
        → Built ((p, g) ∷ roles) (r ∷ rs)

  Built-of :
      (roles : List (ℕ × Grant)) {rs : List PeerRecord}
      → records_of st names roles ≡ some rs
      → Built roles rs
  unfolding records_of
  Built-of [] {rs} h = let e : [] ≡ rs = cc in subst (Built []) e Built.nothing
  Built-of ((p, g) ∷ roles) {rs} h = elim (Option-cases (record_of st names p g)) [
    | inl bad ↦ absurd (ground (arith, bad))
    | inr (r, at_r) ↦ elim (Option-cases (records_of st names roles)) [
      | inl bad ↦ absurd (ground (arith, bad, at_r))
      | inr (qs, at_qs) ↦
          let e : r ∷ qs ≡ rs = ground (arith, at_r, at_qs) in
          subst (Built ((p, g) ∷ roles)) e (Built.one_more at_r (Built-of roles at_qs))
    ]
  ]

  Built-mem :
      {roles : List (ℕ × Grant)} {rs : List PeerRecord} {r : PeerRecord}
      → Built roles rs
      → Memᴰ r rs
      → (p : ℕ) × (g : Grant) × Memᴰ (p, g) roles × (record_of st names p g ≡ some r)
  Built-mem Built.nothing m = elim m [ ]
  Built-mem (Built.one_more {p = p} {g = g} q b) (Memᴰ.head e) = (p, g, Memᴰ.head refl, rw e q)
  Built-mem (Built.one_more q b) (Memᴰ.tail m) =
      let (p, g, n, at_r) = Built-mem b m in (p, g, Memᴰ.tail n, at_r)

  mem-Built :
      {roles : List (ℕ × Grant)} {rs : List PeerRecord} {p : ℕ} {g : Grant}
      → Built roles rs
      → Memᴰ (p, g) roles
      → (r : PeerRecord) × Memᴰ r rs × (record_of st names p g ≡ some r)
  mem-Built Built.nothing m = elim m [ ]
  mem-Built (Built.one_more {r = r} q b) (Memᴰ.head e) =
      (r, Memᴰ.head refl, ap (λ (x : ℕ × Grant). record_of st names x.0 x.1) e ∙ q)
  mem-Built (Built.one_more q b) (Memᴰ.tail m) =
      let (r, n, at_r) = mem-Built b m in (r, Memᴰ.tail n, at_r)

  Built-Above :
      (b : ℕ) {roles : List (ℕ × Grant)} {rs : List PeerRecord}
      → Built roles rs
      → Above b roles
      → PeersAbove b rs
  Built-Above b Built.nothing a = tt
  Built-Above b (Built.one_more {p = p} {g = g} {r = r} q built) a =
      (rw (peer_id-record_of p g r q) a.0, Built-Above b built a.1)

  Built-ascending :
      {roles : List (ℕ × Grant)} {rs : List PeerRecord}
      → Built roles rs
      → IsAscending roles
      → HasAscendingPeers rs
  Built-ascending Built.nothing a = tt
  Built-ascending (Built.one_more {p = p} {g = g} {r = r} q built) a =
      (rw (peer_id-record_of p g r q) (Built-Above p built a.0), Built-ascending built a.1)

  -- Where a record comes from.
  pub mem-records_of :
      (roles : List (ℕ × Grant)) (rs : List PeerRecord) (r : PeerRecord)
      → records_of st names roles ≡ some rs
      → Memᴰ r rs
      → (p : ℕ) × (g : Grant) × Memᴰ (p, g) roles × (record_of st names p g ≡ some r)
  mem-records_of roles rs r h m = Built-mem (Built-of roles h) m

  pub records_of-mem :
      (roles : List (ℕ × Grant)) (rs : List PeerRecord) (p : ℕ) (g : Grant)
      → records_of st names roles ≡ some rs
      → Memᴰ (p, g) roles
      → (r : PeerRecord) × Memᴰ r rs × (record_of st names p g ≡ some r)
  records_of-mem roles rs p g h m = mem-Built (Built-of roles h) m

  pub records_of-ascending :
      (roles : List (ℕ × Grant)) (rs : List PeerRecord)
      → records_of st names roles ≡ some rs
      → IsAscending roles
      → HasAscendingPeers rs
  records_of-ascending roles rs h a = Built-ascending (Built-of roles h) a

-- A binding of an ascending map is found by its key.
pub lookup_of_mem :
    {V : Type 0} (p : ℕ) (g : V) (m : List (ℕ × V))
    → IsAscending m
    → Memᴰ (p, g) m
    → lookup p m ≡ some g
lookup_of_mem p g [] a m = elim m [ ]
lookup_of_mem p g ((q, d) ∷ rest) a (Memᴰ.head e) =
    let e0 : p ≡ q = ap (λ x. x.0) e in
    let e1 : g ≡ d = ap (λ x. x.1) e in rw (e0, e1) (rw (==_self q))
lookup_of_mem p g ((q, d) ∷ rest) a (Memᴰ.tail m) =
    let found = lookup_of_mem p g rest a.1 m in
    elim (Bool-cases (p == q)) [
      | inr other ↦ rw other found
      | inl same ↦ absurd (ground (arith, found, Above-lookup q p rest a.0))
    ]
