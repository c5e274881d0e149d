-- ===== src/Log/Format.antt =====
-- The file of a log and the format of its lines.
use roam.Prelude.{ℕ, Option, some, List, ◌≡◌}
use roam.Log.Reading.{IsLine}

-- What `read_to_string` gives.
pub data FileRead : Type 0 where
  absent unreadable : FileRead
  contents : (text : List ℕ) → FileRead

-- `serde_json` for the lines, with the behaviour that the log relies on.
pub record LineFormat (Line : Type 0) : Type 0 where
  pub from_str : List ℕ → Option Line
  pub to_vec : Line → List ℕ

pub record LineFormatLaws {Line : Type 0} (f : LineFormat Line) : Type 0 where
  pub from_str-to_vec : (line : Line) → f.from_str (f.to_vec line) ≡ some line
  pub to_vec-IsLine : (line : Line) → IsLine (f.to_vec line)
