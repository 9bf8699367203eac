-- ===== src/Tests/Storing.antt =====
-- src/snapshot.cpp and src/crypto.cpp on concrete data.
use shadow_se.Base.{◌≡◌, ◌<◌, arith, [], ◌∷◌, codes}
use shadow_se.Base.Lists.{All, length, take}
use shadow_se.Snapshot.Files.{Disk, IsSaved, save_snapshot, load_snapshot-save_snapshot}
use shadow_se.Vault.{done, save_encrypted, load_encrypted}
use shadow_se.Vault.RoundTrip.{load_encrypted-save_encrypted}
use shadow_se.Base.{
  Bytes, refl, ◌++◌, ◌+◌, ◌-◌, ◌^◌, Option, none, some, true, ap, same_bytes, length-append,
  take-length-append,
}
use shadow_se.Document.{Document, onion}
use shadow_se.Snapshot.{ok, serialize_documents, deserialize_documents}
use shadow_se.Snapshot.RoundTrip.{Fits, stored, deserialize-serialize}

abbrev page : Document
page = record {
  id = 7;
  url = codes "http://b.onion/";
  title = codes "T";
  snippet = [];
  content = codes "hi";
  source = onion;
  depth = 300;
}

page-Fits : All Fits (page ∷ [])
page-Fits = (
  record {
    url = omega arith;
    title = omega arith;
    snippet = omega arith;
    content = omega arith;
    depth = omega arith;
  },
  tt,
)

deserialize-serialize_example :
    deserialize_documents (serialize_documents (page ∷ [])) ≡ ok (stored page ∷ [])
deserialize-serialize_example = deserialize-serialize (page ∷ []) page-Fits (ground arith)

short : 10 < length (serialize_documents (page ∷ []))
unfolding serialize_documents
short = ground arith

abbrev no_files : Disk
no_files p = none

-- Ten bytes are written.
load_snapshot-save_snapshot_example :
    IsSaved true (some 10) (codes "a") (page ∷ []) no_files (page ∷ [])
    × ((save_snapshot true (some 10) (codes "a") (page ∷ []) no_files).1 (codes "b") ≡ none)
unfolding same_bytes
load_snapshot-save_snapshot_example =
    load_snapshot-save_snapshot true (some 10) (codes "a") (page ∷ []) no_files (page ∷ [])
      (codes "b") page-Fits (ground arith) short refl

abbrev sixteen : Bytes
sixteen = 0 ∷ 0 ∷ 0 ∷ 0 ∷ 0 ∷ 0 ∷ 0 ∷ 0 ∷ 0 ∷ 0 ∷ 0 ∷ 0 ∷ 0 ∷ 0 ∷ 0 ∷ 0 ∷ []

-- A cipher for the test: a tag of zeros behind the text.
abbrev key_of : Bytes → Bytes → Option Bytes
key_of password salt = some (1 ∷ [])

abbrev seal : Bytes → Bytes → Bytes → Bytes
seal key nonce m = m ++ sixteen

abbrev unseal : Bytes → Bytes → Bytes → Option Bytes
unseal key nonce c = some (take (length c - 16) c)

unseal-seal : (m : Bytes) → unseal (1 ∷ []) (9 ∷ []) (seal (1 ∷ []) (9 ∷ []) m) ≡ some m
unseal-seal m =
    let e : length (m ++ sixteen) - 16 ≡ length m = omega (arith, length-append m sixteen) in
    rw e (ap some (take-length-append m sixteen))

abbrev drawn : Bytes
drawn = 5 ∷ 5 ∷ 5 ∷ 5 ∷ 5 ∷ 5 ∷ 5 ∷ 5 ∷ sixteen

size_short : length (serialize_documents (page ∷ [])) + 16 < 2 ^ 64
unfolding serialize_documents
size_short = ground arith

load_encrypted-save_encrypted_example :
    (file : Bytes) × ((save_encrypted key_of seal unseal (codes "pw") sixteen drawn (page ∷ [])
        ≡ done file)
      × (load_encrypted key_of seal unseal (codes "pw") file ≡ done (stored page ∷ [])))
load_encrypted-save_encrypted_example =
    load_encrypted-save_encrypted key_of seal unseal (codes "pw") sixteen drawn (1 ∷ []) refl refl
      refl refl unseal-seal (λ m. length-append m sixteen) (page ∷ []) page-Fits (ground arith)
      size_short
