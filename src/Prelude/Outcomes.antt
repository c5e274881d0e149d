-- ===== src/Prelude/Outcomes.antt =====
-- Results of code that can fail, and how a chain of such steps succeeds.
use mathlib.Core.Path.{◌≡◌, refl}
use mathlib.Core.Logic.{◌⊎◌, inl, inr}
use mathlib.Core.Option.{Option, none, some}
use native.Mathlib.Omega.{arith}

pub data Outcome (Problem Value : Type 0) : Type 0 where
  err : Problem → Outcome Problem Value
  ok : Value → Outcome Problem Value

module _ {Problem First Second : Type 0} where
  infixl 5 ◌>>=◌
  abbrev pub ◌>>=◌ :
      Outcome Problem First → (First → Outcome Problem Second) → Outcome Problem Second
  err problem >>= next = err problem
  ok value >>= next = next value

  -- A chain succeeds when its first step does, and the rest after it.
  pub >>=-eq_ok :
      (first : Outcome Problem First) (next : First → Outcome Problem Second) {end : Second}
      → (first >>= next) ≡ ok end
      → (value : First) × (first ≡ ok value) × (next value ≡ ok end)
  >>=-eq_ok (err problem) next eq = absurd (ground arith)
  >>=-eq_ok (ok value) next eq = (value, refl, eq)

module _ {Problem Value : Type 0} where
  abbrev pub ok_or : Option Value → Problem → Outcome Problem Value
  ok_or none problem = err problem
  ok_or (some value) problem = ok value

  pub Outcome-cases :
      (result : Outcome Problem Value)
      → ((value : Value) × (result ≡ ok value)) ⊎ ((problem : Problem) × (result ≡ err problem))
  Outcome-cases (err problem) = inr (problem, refl)
  Outcome-cases (ok value) = inl (value, refl)
