-- ===== src/Backend/Entries.antt =====
-- Logs as entries of the backend: crates/roam-backend-client/src/entries.rs.
use roam.Prelude.{
  ℕ, false, List, [], ◌∷◌, ◌++◌, ◌==◌, if◌then◌else◌, ◌≡◌, ◌≢◌, refl, arith, ◌∙◌, ap, All,
  Bool-cases, inl, inr,
}

-- The rest of the line that begins with a byte, put in front of the lines after it.
abbrev prepend : ℕ → List (List ℕ) → List (List ℕ)
prepend b [] = (b ∷ []) ∷ []
prepend b (line ∷ lines) = (b ∷ line) ∷ lines

-- `split_log_lines`: every line with its line feed, and a torn last one without.
unfoldable pub split_log_lines : List ℕ → List (List ℕ)
split_log_lines [] = []
split_log_lines (b ∷ log) =
    let rest = split_log_lines log in if b == 10 then (b ∷ []) ∷ rest else prepend b rest

-- `reassemble_log`
unfoldable pub reassemble_log : List (List ℕ) → List ℕ
reassemble_log [] = []
reassemble_log (line ∷ lines) = line ++ reassemble_log lines

-- A chunk is a line: it is not empty and has a line feed at most at its end.
abbrev pub IsChunk : List ℕ → Type 0
IsChunk [] = ⊥
IsChunk (b ∷ []) = Unit
IsChunk (b ∷ c ∷ cs) = (b ≢ 10) × IsChunk (c ∷ cs)

reassemble-prepend :
    (b : ℕ) (lines : List (List ℕ)) → reassemble_log (prepend b lines) ≡ b ∷ reassemble_log lines
unfolding reassemble_log
reassemble-prepend b [] = refl
reassemble-prepend b (line ∷ lines) = refl

reassemble_log-split_log_lines : (log : List ℕ) → reassemble_log (split_log_lines log) ≡ log
unfolding split_log_lines reassemble_log
reassemble_log-split_log_lines [] = refl
reassemble_log-split_log_lines (b ∷ log) = elim (Bool-cases (b == 10)) [
  | inl e ↦ rw e (ap (λ bs. b ∷ bs) (reassemble_log-split_log_lines log))
  | inr e ↦ rw e (
      reassemble-prepend b (split_log_lines log)
      ∙ ap (λ bs. b ∷ bs) (reassemble_log-split_log_lines log))
]

prepend-IsChunk :
    (b : ℕ) (lines : List (List ℕ))
    → (b == 10) ≡ false
    → All IsChunk lines
    → All IsChunk (prepend b lines)
prepend-IsChunk b [] h chunks = (tt, tt)
prepend-IsChunk b ([] ∷ lines) h (bad, chunks) = absurd bad
prepend-IsChunk b ((c ∷ line) ∷ lines) h (chunk, chunks) =
    ((λ e. absurd (ground (arith, e, h)), chunk), chunks)

split_log_lines-IsChunk : (log : List ℕ) → All IsChunk (split_log_lines log)
unfolding split_log_lines
split_log_lines-IsChunk [] = tt
split_log_lines-IsChunk (b ∷ log) = elim (Bool-cases (b == 10)) [
  | inl e ↦ rw e (tt, split_log_lines-IsChunk log)
  | inr e ↦ rw e (prepend-IsChunk b (split_log_lines log) e (split_log_lines-IsChunk log))
]

-- A log is cut into lines, each nonempty and with a line feed at most at its end, and these put
-- together again are the log, byte for byte.
pub reassemble-split_log_lines :
    (log : List ℕ)
    → (reassemble_log (split_log_lines log) ≡ log) × All IsChunk (split_log_lines log)
reassemble-split_log_lines log = (reassemble_log-split_log_lines log, split_log_lines-IsChunk log)
