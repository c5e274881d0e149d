-- ===== src/Log/Sound.antt =====
-- Whatever a log reads was accepted from one of its lines.
use roam.Prelude.{
  ℕ, ◌+◌, ◌-◌, Bool, true, false, ◌&&◌, Option, List, [], ◌∷◌, ◌++◌, length, ◌==◌, if◌then◌else◌,
  Bool-cases, Option-cases, ◌≡◌, ◌⊎◌, inl, inr, Memᴰ, arith, ◌∙◌, sym, subst,
}
use roam.Log.{
  Outcome-cases, malformed_entry, Result, ok, err, verify_from, torn, content_lines, verify_text,
}
use roam.Log.Reading.{run, run_bad, run_good, of_snoc}

module _ {Line Entry : Type 0} (parse : List ℕ → Option Line) (accept : Line → Result Entry) where
  run_sound :
      (t : Bool) (last i : ℕ) (out ls_out : List Entry) (ls : List (List ℕ))
      → run parse accept t last i out ls ≡ ok ls_out
      → (e : Entry) → Memᴰ e ls_out
      → Memᴰ e out ⊎ ((p : Line) × (accept p ≡ ok e))
  unfolding verify_from
  run_sound t last i out es [] h e m =
      let same : es ≡ out = ground arith in inl (subst (λ l. Memᴰ e l) same m)
  run_sound t last i out es (l ∷ ls) h e m = elim (Option-cases (parse l)) [
    | inl bad ↦
        stopped (Bool-cases (i == last && t)) (sym (run_bad parse accept t last i out l ls bad) ∙ h)
    | inr (p, q) ↦ elim (Outcome-cases (accept p)) [
      | inr (f, refused) ↦ absurd (ground (arith, q, refused))
      | inl (d, good) ↦
          let h' = sym (run_good parse accept t last i out l ls q good) ∙ h in
          elim (run_sound t last (i + 1) (out ++ d ∷ []) es ls h' e m) [
            | inr found ↦ inr found
            | inl old ↦ elim (of_snoc out old) [
              | inl before ↦ inl before
              | inr new ↦ inr (p, rw new good)
            ]
          ]
    ]
  ]
    where
      stopped :
          ((i == last && t) ≡ true) ⊎ ((i == last && t) ≡ false)
          → (if i == last && t then ok out else err malformed_entry) ≡ ok es
          → Memᴰ e out ⊎ ((p : Line) × (accept p ≡ ok e))
      stopped (inl yes_torn) k =
          let k' : ok out ≡ ok es = rw yes_torn at k in
          let same : es ≡ out = ground arith in inl (subst (λ x. Memᴰ e x) same m)
      stopped (inr not_torn) k = absurd (ground (arith, not_torn, k))

  -- Every entry that a log reads was accepted from a line.
  pub read_sound :
      (text : List ℕ) (es : List Entry)
      → verify_text parse accept text ≡ ok es
      → (e : Entry) → Memᴰ e es
      → (p : Line) × (accept p ≡ ok e)
  unfolding verify_text
  read_sound text es h e m =
      elim (run_sound (torn text) (length (content_lines text) - 1) 0 [] es (content_lines text) h e
        m) [ inl none_yet ↦ elim none_yet [ ] | inr found ↦ found ]
