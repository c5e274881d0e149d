-- ===== src/Pake/Tests.antt =====
-- The theorems on the pairing code at concrete codes.
use roam.Prelude.{◌≡◌, refl}
use roam.Prelude.Bytes.{codes}
use roam.Prelude.Outcomes.{ok}
use roam.Pake.{PairingCode, parse}

abbrev typed : PairingCode
typed = record { text = codes "042042" }

typed-parsed : parse (codes " 042042 ") ≡ ok typed
unfolding parse
typed-parsed = refl
