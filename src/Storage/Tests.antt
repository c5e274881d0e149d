-- ===== src/Storage/Tests.antt =====
-- The theorems on the blob store at a small store in memory, and runs of its operations.
use roam.Prelude.{
  ℕ, Bool, true, false, some, List, [], ◌∷◌, ◌++◌, length, replicate, ◌+◌, ◌%◌, ◌≡◌, refl, arith,
}
use roam.Prelude.Outcomes.{err, ok}
use roam.Prelude.Keyed.{texts_key}
use roam.Storage.Vfs.Memory.{MemState}
use roam.Storage.Vfs.Conformance.{files, mem_fs-Promises}
use roam.Storage.Blob
use roam.Storage.Blob.{final_path, put, get, write_incoming_chunk, finalize_incoming}
use roam.Storage.Blob.Memory.{mem_store}
use roam.Storage.Blob.Finished.{AreSound, IsStored, put-IsStored}
use roam.Storage.Blob.Incoming.{incoming-AreSound}
use roam.Storage.Keywrap.{KeyCrypto, KeyCryptoLaws, wrap, unwrap, unwrap-wrap}

-- Digests that tell lengths apart.
abbrev toy_hash : List ℕ → List ℕ
toy_hash bytes = replicate 63 b'a' ++ (b'0' + length bytes % 10) ∷ []

abbrev empty_disk : MemState
empty_disk = record { files = []; dirs = []; owner_only = [] }

abbrev small_blob : List ℕ
small_blob = 7 ∷ 8 ∷ 9 ∷ []

abbrev name : List ℕ
name = toy_hash small_blob

abbrev stored : MemState
stored = (put (mem_store []) toy_hash small_blob empty_disk).1

put-get : get (mem_store []) toy_hash name stored ≡ ok (some small_blob)
unfolding put get
put-get = refl

abbrev damaged : MemState
damaged = record empty_disk { files = (name ∷ [], 1 ∷ []) ∷ [] }

get-damaged : get (mem_store []) toy_hash name damaged ≡ err Blob.corrupt
unfolding get
get-damaged = refl

chunk-too_long :
    (write_incoming_chunk (mem_store []) name 2 3 (7 ∷ 8 ∷ []) empty_disk).0 ≡ err Blob.over_length
unfolding write_incoming_chunk
chunk-too_long = refl

abbrev first_chunk : MemState
first_chunk = (write_incoming_chunk (mem_store []) name 1 3 (8 ∷ 9 ∷ []) empty_disk).1

chunk-disagrees :
    (write_incoming_chunk (mem_store []) name 0 2 (7 ∷ []) first_chunk).0 ≡ err Blob.disagrees
unfolding write_incoming_chunk
chunk-disagrees = refl

chunks-make_blob :
    (finalize_incoming
      (mem_store [])
      toy_hash
      name
      (write_incoming_chunk (mem_store []) name 0 3 (7 ∷ []) first_chunk).1).0
    ≡ ok true
unfolding write_incoming_chunk finalize_incoming
chunks-make_blob = refl

put-IsStored_example :
    IsStored
      (mem_store [])
      toy_hash
      files
      mem_fs-Promises
      false
      name
      small_blob
      (files empty_disk)
      (put (mem_store []) toy_hash small_blob empty_disk)
put-IsStored_example =
    put-IsStored (mem_store []) toy_hash files mem_fs-Promises small_blob empty_disk refl

empty_disk-AreSound : AreSound (mem_store []) toy_hash (files empty_disk)
empty_disk-AreSound hash bytes valid found = absurd (ground (arith, found))

incoming-AreSound_example :
    AreSound (mem_store []) toy_hash (files first_chunk)
    × ((placed : Bool)
        → (finalize_incoming (mem_store []) toy_hash name empty_disk).0 ≡ ok placed
        → AreSound
            (mem_store [])
            toy_hash
            (files ((finalize_incoming (mem_store []) toy_hash name empty_disk).1)))
incoming-AreSound_example =
    incoming-AreSound (mem_store []) files mem_fs-Promises toy_hash name 1 3 (8 ∷ 9 ∷ []) empty_disk
      empty_disk-AreSound

-- A cipher that hides nothing, with keys of zeros.
abbrev toy_crypto : KeyCrypto
toy_crypto = record {
  public_of = λ secret. replicate 32 0;
  diffie_hellman = λ secret public. [];
  derive_key = λ context input. replicate 32 0;
  aead = record { encrypt = λ key nonce text. text; decrypt = λ key nonce ct. some ct };
}

toy_laws : KeyCryptoLaws toy_crypto
toy_laws = record {
  length-public_of = λ secret. refl;
  length-derive_key = λ context input. refl;
  agree = λ a b. refl;
  aead_laws = record { decrypt-encrypt = λ key nonce text k n. refl };
}

unwrap-wrap_example :
    unwrap toy_crypto
      (3 ∷ [])
      (wrap toy_crypto (4 ∷ []) (replicate 24 7) (replicate 32 0) (replicate 32 5))
    ≡ ok (replicate 32 5)
unwrap-wrap_example =
    unwrap-wrap toy_crypto toy_laws (4 ∷ []) (replicate 24 7) (3 ∷ []) (replicate 32 5) refl refl
