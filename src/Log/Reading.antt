-- ===== src/Log/Reading.antt =====
-- Reading a log back: what was read stays, a torn tail is dropped, an interior fault is refused.
use mathlib.Core.List.{append_assoc}
use roam.Prelude.{
  ℕ, suc, ◌+◌, ◌-◌, Bool, true, false, not, ◌&&◌, Option, none, some, List, [], ◌∷◌, ◌++◌, length,
  select, ◌==◌, if◌then◌else◌, Bool-cases, Option-cases, ◌≡◌, ◌≢◌, refl, ◌⊎◌, inl, inr, Memᴰ, arith,
  ◌∙◌, ap, sym, length-append, select-append,
}
use roam.Prelude.Text.{
  is_blank, is_whitespace, ends_with_newline, strip_cr, lines, lines-append, lines_one, lines_torn,
  lines-nil, ends_with_newline-append, ends_of_single, IsComplete, HasNoNewline,
}
use roam.Log.{
  Outcome-cases, malformed_entry, Result, ok, err, is_empty, verify_from, torn, content_lines,
  verify_text,
}

-- A line that a log holds: not blank, with no line feed, and no carriage return at its end.
pub record IsLine (line : List ℕ) : Type 0 where
  pub single : HasNoNewline line
  pub shown : is_blank line ≡ false
  pub whole : strip_cr line ≡ line

IsLine-cons : (c : ℕ) (line : List ℕ) → c ≢ 10 → IsLine line → IsLine (c ∷ line)
IsLine-cons c [] other h = absurd (ground (arith, h.shown))
IsLine-cons c (d ∷ line) other h = record {
  single = (other, h.single);
  shown = IsLine-shown c (d ∷ line) h.shown;
  whole = ap (λ cs. c ∷ cs) h.whole;
}
  where
    IsLine-shown : (c : ℕ) (line : List ℕ) → is_blank line ≡ false → is_blank (c ∷ line) ≡ false
    IsLine-shown c line h = elim (Bool-cases (is_whitespace c)) [
      | inl t ↦ rw t h
      | inr f ↦ rw f refl
    ]

-- A line stays one with more characters in front that are no line feeds.
pub IsLine-append : (tail line : List ℕ) → HasNoNewline tail → IsLine line → IsLine (tail ++ line)
IsLine-append [] line single h = h
IsLine-append (c ∷ tail) line single h =
    IsLine-cons c (tail ++ line) single.0 (IsLine-append tail line single.1 h)

content_lines-append :
    (text more : List ℕ)
    → IsComplete text
    → content_lines (text ++ more) ≡ content_lines text ++ content_lines more
content_lines-append text more h =
    ap (select (λ l. not (is_blank l))) (lines-append text more h)
    ∙ select-append (λ l. not (is_blank l)) (lines text) (lines more)

content_lines_one :
    (line more : List ℕ)
    → IsLine line
    → content_lines (line ++ 10 ∷ more) ≡ line ∷ content_lines more
content_lines_one line more h = rw (lines_one line more h.single) (rw h.whole (rw h.shown refl))

content_lines_closed : (line : List ℕ) → IsLine line → content_lines (line ++ 10 ∷ []) ≡ line ∷ []
content_lines_closed line h =
    content_lines_one line [] h ∙ ap (λ ls. line ∷ select (λ l. not (is_blank l)) ls) lines-nil

is_empty-append : (xs : List ℕ) (c : ℕ) (more : List ℕ) → is_empty (xs ++ c ∷ more) ≡ false
is_empty-append [] c more = refl
is_empty-append (x ∷ xs) c more = refl

torn_open : (text tail : List ℕ) → HasNoNewline tail → tail ≢ [] → torn (text ++ tail) ≡ true
torn_open text [] h n = absurd (n refl)
torn_open text (c ∷ tail) h n = ground (
  arith,
  is_empty-append text c tail,
  ends_with_newline-append text c tail,
  ends_of_single c tail h,
)

IsComplete-of_ends : (text : List ℕ) → ends_with_newline text ≡ true → IsComplete text
IsComplete-of_ends [] h = tt
IsComplete-of_ends (c ∷ cs) h = h

ends_closed : (text line : List ℕ) → ends_with_newline (text ++ (line ++ 10 ∷ [])) ≡ true
ends_closed text line =
    rw (sym (append_assoc text line (10 ∷ []))) (ends_with_newline-append (text ++ line) 10 [])

pub append-IsComplete : (text line : List ℕ) → IsComplete (text ++ (line ++ 10 ∷ []))
append-IsComplete text line = IsComplete-of_ends (text ++ (line ++ 10 ∷ [])) (ends_closed text line)

torn_closed : (text line : List ℕ) → torn (text ++ (line ++ 10 ∷ [])) ≡ false
torn_closed text line = ground (arith, ends_closed text line)

pub of_snoc : {A : Type 0} {x y : A} (xs : List A) → Memᴰ x (xs ++ y ∷ []) → Memᴰ x xs ⊎ (x ≡ y)
of_snoc [] (Memᴰ.head e) = inr e
of_snoc [] (Memᴰ.tail m) = elim m [ ]
of_snoc (z ∷ xs) (Memᴰ.head e) = inl (Memᴰ.head e)
of_snoc (z ∷ xs) (Memᴰ.tail m) = elim (of_snoc xs m) [ inl n ↦ inl (Memᴰ.tail n) | inr e ↦ inr e ]

module _ {Line Entry : Type 0} (parse : List ℕ → Option Line) (accept : Line → Result Entry) where
  abbrev pub run : Bool → ℕ → ℕ → List Entry → List (List ℕ) → Result (List Entry)
  run = verify_from parse accept

  pub run_good :
      (t : Bool) (last i : ℕ) (out : List Entry) (l : List ℕ) (ls : List (List ℕ)) {p : Line}
      {e : Entry}
      → parse l ≡ some p
      → accept p ≡ ok e
      → run t last i out (l ∷ ls) ≡ run t last (i + 1) (out ++ e ∷ []) ls
  unfolding verify_from
  run_good t last i out l ls q good = rw (q, verify_from) (rw (good, verify_from) refl)

  pub run_bad :
      (t : Bool) (last i : ℕ) (out : List Entry) (l : List ℕ) (ls : List (List ℕ))
      → parse l ≡ none
      → run t last i out (l ∷ ls) ≡ (if i == last && t then ok out else err malformed_entry)
  unfolding verify_from
  run_bad t last i out l ls q = rw (q, verify_from) refl

  -- Lines that were read whole are read the same way in front of others.
  run-append :
      (last i j last' : ℕ) (t : Bool) (out : List Entry) {es : List Entry} (ls more : List (List ℕ))
      → run false last i out ls ≡ ok es
      → run t last' j out (ls ++ more) ≡ run t last' (j + length ls) es more
  unfolding verify_from
  run-append last i j last' t out {es} [] more h =
      let e : out ≡ es = ground arith in let z : j + 0 ≡ j = omega arith in rw (e, z) refl
  run-append last i j last' t out {es} (l ∷ ls) more h = elim (Option-cases (parse l)) [
    | inl bad ↦ absurd (ground (arith, bad))
    | inr (p, q) ↦ elim (Outcome-cases (accept p)) [
      | inr (e, refused) ↦ absurd (ground (arith, q, refused))
      | inl (entry, good) ↦
          let h' : run false last (i + 1) (out ++ entry ∷ []) ls ≡ ok es =
            sym (run_good false last i out l ls q good) ∙ h in
          let z : j + 1 + length ls ≡ j + suc (length ls) = omega arith in
          run_good t last' j out l (ls ++ more) q good
          ∙ (rw z at (run-append last (i + 1) (j + 1) last' t (out ++ entry ∷ []) ls more h'))
    ]
  ]

  torn_of_complete : (text : List ℕ) → IsComplete text → torn text ≡ false
  torn_of_complete [] h = refl
  torn_of_complete (c ∷ text) h = rw h refl

  reads_run :
      (text : List ℕ) {es : List Entry}
      → IsComplete text
      → verify_text parse accept text ≡ ok es
      → run false (length (content_lines text) - 1) 0 [] (content_lines text) ≡ ok es
  unfolding verify_text
  reads_run text whole h = rw (torn_of_complete text whole) at h

  -- Reading on: what complete lines gave is the start of what the longer text gives.
  read_on :
      (text more : List ℕ) {es : List Entry}
      → IsComplete text
      → verify_text parse accept text ≡ ok es
      → verify_text parse accept (text ++ more)
        ≡ run
            (torn (text ++ more))
            (length (content_lines text) + length (content_lines more) - 1)
            (length (content_lines text))
            es
            (content_lines more)
  unfolding verify_text
  read_on text more {es} whole h =
      let before = content_lines text in
      let after = content_lines more in
      let split = content_lines-append text more whole in
      let sized = length-append before after in
      let z : 0 + length before ≡ length before = omega arith in
      rw (split, sized)
        (rw z at (
          run-append (length before - 1) 0 0 (length before + length after - 1)
            (torn (text ++ more)) [] before after (reads_run text whole h)))

  -- A log of complete lines that verifies and gains one more line, which is accepted, reads as
  -- before with that line's entry last.
  pub read_appended :
      (text line : List ℕ) {es : List Entry} {p : Line} {e : Entry}
      → IsComplete text
      → verify_text parse accept text ≡ ok es
      → IsLine line
      → parse line ≡ some p
      → accept p ≡ ok e
      → verify_text parse accept (text ++ (line ++ 10 ∷ [])) ≡ ok (es ++ e ∷ [])
  unfolding verify_from
  read_appended text line {es} whole h shaped q good =
      let on = read_on text (line ++ 10 ∷ []) whole h in
      (rw (content_lines_closed line shaped) at on)
      ∙ run_good (torn (text ++ (line ++ 10 ∷ []))) (length (content_lines text) + 1 - 1)
          (length (content_lines text)) es line [] q good

  -- Behind complete lines that verify, a torn last line that does not parse is dropped.
  pub read_torn :
      (text tail : List ℕ) {es : List Entry}
      → IsComplete text
      → verify_text parse accept text ≡ ok es
      → HasNoNewline tail
      → tail ≢ []
      → parse tail ≡ none
      → verify_text parse accept (text ++ tail) ≡ ok es
  unfolding verify_from
  read_torn text tail {es} whole h single some_text q =
      let before = length (content_lines text) in
      let on = rw (torn_open text tail single some_text) at (read_on text tail whole h) in
      elim (Bool-cases (is_blank tail)) [
        | inl blank ↦
            let none_left : content_lines tail ≡ [] =
              rw (lines_torn tail single some_text) (rw blank refl) in
            rw none_left at on
        | inr shown ↦
            let one : content_lines tail ≡ tail ∷ [] =
              rw (lines_torn tail single some_text) (rw shown refl) in
            let last : (before == before + 1 - 1) ≡ true = ground arith in
            (rw one at on) ∙ run_bad true (before + 1 - 1) before es tail [] q ∙ (rw last refl)
      ]

  -- Behind complete lines that verify, a closed line that does not parse is refused, although it
  -- is the last line.
  pub read_malformed :
      (text line : List ℕ) {es : List Entry}
      → IsComplete text
      → verify_text parse accept text ≡ ok es
      → IsLine line
      → parse line ≡ none
      → verify_text parse accept (text ++ (line ++ 10 ∷ [])) ≡ err malformed_entry
  unfolding verify_from
  read_malformed text line {es} whole h shaped q =
      let before = length (content_lines text) in
      let on = rw (torn_closed text line) at (read_on text (line ++ 10 ∷ []) whole h) in
      let never : (before == before + 1 - 1 && false) ≡ false = ground arith in
      (rw (content_lines_closed line shaped) at on)
      ∙ run_bad false (before + 1 - 1) before es line [] q
      ∙ (rw never refl)

  -- An append after a torn tail joins the two: where the joined line does not parse, the log of
  -- complete lines that verify, the tail and the new entry is refused.
  pub append_after_torn :
      (text tail line : List ℕ) {es : List Entry}
      → IsComplete text
      → verify_text parse accept text ≡ ok es
      → IsLine (tail ++ line)
      → parse (tail ++ line) ≡ none
      → verify_text parse accept ((text ++ tail) ++ (line ++ 10 ∷ [])) ≡ err malformed_entry
  append_after_torn text tail line whole h shaped q =
      let joined : (text ++ tail) ++ (line ++ 10 ∷ []) ≡ text ++ ((tail ++ line) ++ 10 ∷ []) =
        append_assoc text tail (line ++ 10 ∷ [])
        ∙ ap (λ x. text ++ x) (sym (append_assoc tail line (10 ∷ []))) in
      rw joined (read_malformed text (tail ++ line) whole h shaped q)
