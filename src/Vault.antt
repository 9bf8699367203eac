-- ===== src/Vault.antt =====
-- src/snapshot.cpp and `CryptoBox` of src/crypto.cpp: the encrypted snapshot, as the bytes of its file.
-- libsodium is a parameter: `derive` gives the key for a password and a salt, or fails, `seal` and
-- `unseal` are the authenticated cipher, and the salt and the nonce are the random bytes drawn. The
-- length field is written in the byte order of a little-endian host.
pub mod RoundTrip
pub mod Counted
use shadow_se.Base.{
  ℕ, zero, suc, ◌+◌, ◌*◌, ◌/◌, ◌%◌, ◌^◌, Bool, true, false, not, ◌||◌, Option, none, some, List, [],
  ◌∷◌, ◌++◌, ltb, ◌==◌, if◌then◌else◌, length, take, drop, Bytes, same_bytes, is_empty,
}
use shadow_se.Document.{Document}
use shadow_se.Snapshot.{magic, Failure, Result, ok, err, serialize_documents, deserialize_documents}

pub record EncryptedBlob : Type 0 where
  pub nonce : Bytes
  pub ciphertext : Bytes

abbrev pub empty_blob : EncryptedBlob
empty_blob = record { nonce = []; ciphertext = [] }

pub data VaultFailure : Type 0 where
  derivation_failed encryption_failed too_short bad_vault_magic inconsistent_length
        decryption_failed :
      VaultFailure
  bad_documents : Failure → VaultFailure

pub data Outcome (A : Type 0) : Type 0 where
  done : A → Outcome A
  failed : VaultFailure → Outcome A

-- The eight bytes of a 64-bit number, the lowest first, and the number of such bytes.
unfoldable pub le_bytes : ℕ → ℕ → Bytes
le_bytes zero n = []
le_bytes (suc k) n = n % 256 ∷ le_bytes k (n / 256)

unfoldable pub le_number : Bytes → ℕ
le_number [] = 0
le_number (b ∷ bs) = b + 256 * le_number bs

unfoldable pub lift_documents : Result (List Document) → Outcome (List Document)
lift_documents (ok docs) = done docs
lift_documents (err f) = failed (bad_documents f)

module _ (derive : Bytes → Bytes → Option Bytes) (seal : Bytes → Bytes → Bytes → Bytes)
    (unseal : Bytes → Bytes → Bytes → Option Bytes) where
  unfoldable pub encrypt : Bytes → Bytes → Bytes → EncryptedBlob
  encrypt key nonce plaintext =
      if is_empty key || is_empty plaintext
      then empty_blob
      else if not (length nonce == 24)
      then empty_blob
      else record { nonce = nonce; ciphertext = seal key nonce plaintext }

  unfoldable pub decrypt : Bytes → EncryptedBlob → Option Bytes
  decrypt key blob =
      if is_empty key || not (length blob.nonce == 24)
      then none
      else if ltb (length blob.ciphertext) 16
      then none
      else unseal key blob.nonce blob.ciphertext

  -- The bytes of the file.
  unfoldable pub framed : Bytes → EncryptedBlob → Bytes
  framed salt blob =
      magic ++ (salt ++ (blob.nonce ++ (le_bytes 8 (length blob.ciphertext) ++ blob.ciphertext)))

  unfoldable pub save_with : Option Bytes → Bytes → Bytes → List Document → Outcome Bytes
  save_with none salt nonce docs = failed derivation_failed
  save_with (some key) salt nonce docs =
      let blob = encrypt key nonce (serialize_documents docs) in
      if is_empty key || not (length salt == 16)
      then failed derivation_failed
      else if not (length blob.nonce == 24) || is_empty blob.ciphertext
      then failed encryption_failed
      else done (framed salt blob)

  -- `saveEncryptedSnapshot`
  unfoldable pub save_encrypted : Bytes → Bytes → Bytes → List Document → Outcome Bytes
  save_encrypted password salt nonce docs = save_with (derive password salt) salt nonce docs

  unfoldable pub unlock : Option Bytes → EncryptedBlob → Outcome (List Document)
  unlock none blob = failed derivation_failed
  unlock (some key) blob =
      if is_empty key then failed derivation_failed else elim (decrypt key blob) [
        | none ↦ failed decryption_failed
        | some plaintext ↦ lift_documents (deserialize_documents plaintext)
      ]

  -- `loadEncryptedSnapshot` behind the magic.
  unfoldable pub load_fields : Bytes → Bytes → Outcome (List Document)
  load_fields password file =
      let salt = take 16 file in
      let nonce = take 24 (drop 16 file) in
      let clen = le_number (take 8 (drop 24 (drop 16 file))) in
      let behind = drop 8 (drop 24 (drop 16 file)) in
      if ltb (length behind) clen
      then failed inconsistent_length
      else unlock (derive password salt) (record { nonce = nonce; ciphertext = take clen behind })

  unfoldable pub load_encrypted : Bytes → Bytes → Outcome (List Document)
  load_encrypted password file =
      if ltb (length file) 54
      then failed too_short
      else if not (same_bytes (take 6 file) magic)
      then failed bad_vault_magic
      else load_fields password (drop 6 file)
