-- ===== src/Vault/Counted.antt =====
-- src/snapshot.cpp: no encrypted snapshot gives more than ten million documents.
use shadow_se.Base.{
  ◌≤◌, Bool, true, false, not, Option, none, some, List, ltb, if◌then◌else◌, length, take, drop,
  Bytes, same_bytes, is_empty,
}
use shadow_se.Document.{Document}
use shadow_se.Snapshot.{Result, ok, err, max_count, magic, deserialize_documents}
use shadow_se.Snapshot.Counted.{IsCounted, deserialize_documents-IsCounted}
use shadow_se.Vault.{
  EncryptedBlob, Outcome, done, failed, derivation_failed, decryption_failed, inconsistent_length,
  too_short, bad_vault_magic, lift_documents, decrypt, unlock, load_fields, load_encrypted,
}

abbrev pub IsFew : Outcome (List Document) → Type 0
IsFew (done docs) = length docs ≤ max_count
IsFew (failed f) = Unit

lift_documents-IsFew : (r : Result (List Document)) → IsCounted r → IsFew (lift_documents r)
unfolding lift_documents
lift_documents-IsFew (ok docs) h = h
lift_documents-IsFew (err f) h = tt

if-IsFew :
    (c : Bool) (x y : Outcome (List Document)) → IsFew x → IsFew y → IsFew (if c then x else y)
if-IsFew true x y h k = h
if-IsFew false x y h k = k

decrypted-IsFew :
    (plain : Option Bytes)
    → IsFew (elim plain [
      | none ↦ failed decryption_failed
      | some plaintext ↦ lift_documents (deserialize_documents plaintext)
    ])
decrypted-IsFew none = tt
decrypted-IsFew (some plaintext) =
    lift_documents-IsFew (deserialize_documents plaintext)
      (deserialize_documents-IsCounted plaintext)

module _ (derive : Bytes → Bytes → Option Bytes) (seal : Bytes → Bytes → Bytes → Bytes)
    (unseal : Bytes → Bytes → Bytes → Option Bytes) where
  unlock-IsFew :
      (key : Option Bytes) (blob : EncryptedBlob) → IsFew (unlock derive seal unseal key blob)
  unfolding unlock
  unlock-IsFew none blob = tt
  unlock-IsFew (some key) blob =
      if-IsFew (is_empty key) (failed derivation_failed) _ tt
        (decrypted-IsFew (decrypt derive seal unseal key blob))

  load_fields-IsFew : (password file : Bytes) → IsFew (load_fields derive seal unseal password file)
  unfolding load_fields
  load_fields-IsFew password file =
      if-IsFew _ (failed inconsistent_length) _ tt (unlock-IsFew (derive password (take 16 file)) _)

  pub load_encrypted-IsFew :
      (password file : Bytes) → IsFew (load_encrypted derive seal unseal password file)
  unfolding load_encrypted
  load_encrypted-IsFew password file = if-IsFew (ltb (length file) 54) (failed too_short) _ tt (
      if-IsFew (not (same_bytes (take 6 file) magic)) (failed bad_vault_magic) _ tt
        (load_fields-IsFew password (drop 6 file)))
