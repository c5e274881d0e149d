-- ===== src/KeyLog/Tests.antt =====
-- The theorems on the key log's signed bytes at concrete entries.
use roam.Prelude.{[], ◌∷◌, replicate, ◌≡◌, ◌≢◌, refl, arith}
use roam.Roster.Entry.{RosterOp, RosterEntry}
use roam.Roster.Canonical.{canonical_bytes as roster_bytes}
use roam.KeyLog.{rotate, KeyLogEntry, canonical_bytes}
use roam.KeyLog.Canonical.{
  HasFields, key_canonical_bytes-injective, roster_bytes-ne-canonical_bytes,
}

abbrev rotation : KeyLogEntry
rotation = record {
  seq = 1;
  author = 5;
  epoch_id = replicate 32 7;
  body = rotate (replicate 32 1 ∷ replicate 32 2 ∷ []) (replicate 32 3);
}

rotation-HasFields : HasFields rotation
rotation-HasFields = record {
  seq = omega arith;
  author = omega arith;
  epoch = refl;
  body = ((refl, (refl, tt)), refl, omega arith);
}

abbrev revocation : RosterEntry
revocation = record {
  seq = 1;
  lamport = 1;
  op = RosterOp.revoke;
  subject_peer = 5;
  subject_key = 5 ∷ replicate 31 0;
  added_by = 5;
}

key_canonical_bytes-injective_example : rotation ≡ rotation
key_canonical_bytes-injective_example =
    key_canonical_bytes-injective rotation rotation rotation-HasFields rotation-HasFields refl

roster_bytes-ne-canonical_bytes_example : roster_bytes revocation ≢ canonical_bytes rotation
roster_bytes-ne-canonical_bytes_example = roster_bytes-ne-canonical_bytes revocation rotation
