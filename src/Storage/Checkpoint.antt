-- ===== src/Storage/Checkpoint.antt =====
-- Checkpoint planning: crates/roam-storage/src/checkpoint.rs.
use roam.Prelude.{ℕ, Bool, not, List, [], ◌∷◌, any, if◌then◌else◌, ◌+◌, ◌%◌, ◌^◌}
use roam.Prelude.Trim.{same_text}

-- `Marker` of history.rs without its time stamp, which planning does not read.
pub record Marker : Type 0 where
  pub frontier : List ℕ
  pub log_lens : List (ℕ × ℕ)

pub record CheckpointPlan : Type 0 where
  pub frontier : List ℕ
  pub drop_lines : List (ℕ × ℕ)

abbrev pub plan_from_marker : Marker → CheckpointPlan
plan_from_marker marker = record { frontier = marker.frontier; drop_lines = marker.log_lens }

-- `iter().sum()`, which adds from the left and keeps the low 64 bits.
unfoldable pub sum_from : (acc : ℕ) → (keep : List ℕ → Bool) → List (List ℕ × ℕ) → ℕ
sum_from acc keep [] = acc
sum_from acc keep ((hash, size) ∷ on_disk) =
    sum_from (if keep hash then (acc + size) % 2 ^ 64 else acc) keep on_disk

-- `reclaimable_blob_bytes`
unfoldable pub reclaimable_blob_bytes :
    (on_disk : List (List ℕ × ℕ)) (referenced : List (List ℕ)) → ℕ
reclaimable_blob_bytes on_disk referenced =
    sum_from 0 (λ hash. not (any (λ r. same_text r hash) referenced)) on_disk
