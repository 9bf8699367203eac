-- ===== src/Vault/RoundTrip.antt =====
-- src/snapshot.cpp: an encrypted snapshot is loaded again with its password.
use shadow_se.Base.{
  subst, ℕ, zero, suc, ◌+◌, ◌/◌, ◌^◌, ◌≤◌, ◌<◌, ◌≡◌, refl, ap, ◌∙◌, arith, false, Option, some,
  List, [], ◌∷◌, ◌++◌, map, ltb, length, take, drop, length-append, take-length-append,
  drop-length-append, Bytes, is_empty, All, same_bytes,
}
use shadow_se.Document.{Document}
use shadow_se.Snapshot.{
  deserialize_prefix, documents_of, max_count, ok, serialize_documents, deserialize_documents,
}
use shadow_se.Snapshot.RoundTrip.{Fits, stored, deserialize-serialize}
use shadow_se.Vault.{
  EncryptedBlob, done, le_bytes, le_number, lift_documents, encrypt, decrypt, framed, save_with,
  save_encrypted, unlock, load_fields, load_encrypted,
}

length-le_bytes : (k n : ℕ) → length (le_bytes k n) ≡ k
unfolding le_bytes
length-le_bytes zero n = refl
length-le_bytes (suc k) n = ap suc (length-le_bytes k (n / 256))

le_number-le_bytes : (n : ℕ) → n < 2 ^ 64 → le_number (le_bytes 8 n) ≡ n
unfolding le_number le_bytes
le_number-le_bytes n h = omega arith

take_first : (n : ℕ) (s t : Bytes) → length s ≡ n → take n (s ++ t) ≡ s
take_first n s t h = subst (λ k. take k (s ++ t) ≡ s) h (take-length-append s t)

drop_first : (n : ℕ) (s t : Bytes) → length s ≡ n → drop n (s ++ t) ≡ t
drop_first n s t h = subst (λ k. drop k (s ++ t) ≡ t) h (drop-length-append s t)

take_all : (s : Bytes) → take (length s) s ≡ s
take_all [] = refl
take_all (c ∷ s) = ap (λ x. c ∷ x) (take_all s)

not_empty :
    (s : Bytes) (docs : List Document) → deserialize_documents s ≡ ok docs → is_empty s ≡ false
unfolding deserialize_documents deserialize_prefix documents_of same_bytes
not_empty [] docs h = absurd (ground arith)
not_empty (c ∷ s) docs h = refl

longer_not_empty : (s : Bytes) (n : ℕ) → length s ≡ n + 16 → is_empty s ≡ false
longer_not_empty [] n h = absurd (omega arith)
longer_not_empty (c ∷ s) n h = refl

module _ (derive : Bytes → Bytes → Option Bytes) (seal : Bytes → Bytes → Bytes → Bytes)
    (unseal : Bytes → Bytes → Bytes → Option Bytes) (password salt nonce key : Bytes)
    (derived : derive password salt ≡ some key) (keyed : is_empty key ≡ false)
    (salt_length : length salt ≡ 16) (nonce_length : length nonce ≡ 24)
    (unsealed : (m : Bytes) → unseal key nonce (seal key nonce m) ≡ some m)
    (tagged : (m : Bytes) → length (seal key nonce m) ≡ length m + 16) where
  abbrev sealed : Bytes → EncryptedBlob
  sealed m = record { nonce = nonce; ciphertext = seal key nonce m }

  encrypt-sealed :
      (m : Bytes) → is_empty m ≡ false → encrypt derive seal unseal key nonce m ≡ sealed m
  unfolding encrypt
  encrypt-sealed m h = rw (keyed, h, nonce_length) refl

  decrypt-sealed : (m : Bytes) → decrypt derive seal unseal key (sealed m) ≡ some m
  unfolding decrypt
  decrypt-sealed m = rw (keyed, nonce_length) (ground (arith, tagged m, unsealed m))

  unlock-sealed :
      (m : Bytes)
      → unlock derive seal unseal (derive password salt) (sealed m)
        ≡ lift_documents (deserialize_documents m)
  unfolding unlock
  unlock-sealed m = rw (derived, keyed, decrypt-sealed m) refl

  load_fields-framed :
      (m : Bytes)
      → length m + 16 < 2 ^ 64
      → load_fields derive seal unseal password
          (salt ++ (nonce ++ (le_bytes 8 (length (seal key nonce m)) ++ seal key nonce m)))
        ≡ lift_documents (deserialize_documents m)
  unfolding load_fields
  load_fields-framed m h =
      let ct = seal key nonce m in
      let size = le_bytes 8 (length ct) in
      let small : length ct < 2 ^ 64 = omega (arith, tagged m) in
      simp
        (
          take_first 16 salt (nonce ++ (size ++ ct)) salt_length,
          drop_first 16 salt (nonce ++ (size ++ ct)) salt_length,
          take_first 24 nonce (size ++ ct) nonce_length,
          drop_first 24 nonce (size ++ ct) nonce_length,
          take_first 8 size ct (length-le_bytes 8 (length ct)),
          drop_first 8 size ct (length-le_bytes 8 (length ct)),
          le_number-le_bytes (length ct) small,
          take_all ct,
        )
        (ground (arith, unlock-sealed m))

  length-framed : (m : Bytes) → length (framed derive seal unseal salt (sealed m)) ≡ 70 + length m
  unfolding framed
  length-framed m =
      let ct = seal key nonce m in
      let size = le_bytes 8 (length ct) in
      omega (
        arith,
        length-append salt (nonce ++ (size ++ ct)),
        length-append nonce (size ++ ct),
        length-append size ct,
        length-le_bytes 8 (length ct),
        tagged m,
        salt_length,
        nonce_length,
      )

  load_encrypted-framed :
      (m : Bytes)
      → length m + 16 < 2 ^ 64
      → load_encrypted derive seal unseal password (framed derive seal unseal salt (sealed m))
        ≡ lift_documents (deserialize_documents m)
  unfolding load_encrypted framed same_bytes
  load_encrypted-framed m h =
      let long : ltb (length (framed derive seal unseal salt (sealed m))) 54 ≡ false =
        ground (arith, length-framed m) in
      rw long (load_fields-framed m h)

  save_encrypted-framed :
      (docs : List Document)
      → is_empty (serialize_documents docs) ≡ false
      → save_encrypted derive seal unseal password salt nonce docs
        ≡ done (framed derive seal unseal salt (sealed (serialize_documents docs)))
  unfolding save_encrypted save_with
  save_encrypted-framed docs ne =
      let m = serialize_documents docs in
      rw
        (
          derived,
          keyed,
          salt_length,
          encrypt-sealed m ne,
          nonce_length,
          longer_not_empty (seal key nonce m) (length m) (tagged m),
        )
        refl

  -- With a cipher that opens what it sealed and adds a tag of 16 bytes, a key for the password and
  -- the salt, a salt of 16 bytes and a nonce of 24: documents that fit, at most ten million of them,
  -- whose serialization with the tag is shorter than 2 ^ 64, are saved, and loading the file with the
  -- password gives them back, but for the ids.
  pub load_encrypted-save_encrypted :
      (docs : List Document)
      → All Fits docs
      → length docs ≤ max_count
      → length (serialize_documents docs) + 16 < 2 ^ 64
      → (file : Bytes) × ((save_encrypted derive seal unseal password salt nonce docs ≡ done file)
          × (load_encrypted derive seal unseal password file ≡ done (map stored docs)))
  load_encrypted-save_encrypted docs fits few short =
      let back = deserialize-serialize docs fits few in
      let m = serialize_documents docs in
      (
        framed derive seal unseal salt (sealed m),
        (
          save_encrypted-framed docs (not_empty m _ back),
          load_encrypted-framed m short ∙ ap lift_documents back ∙ unfold lift_documents in refl,
        ),
      )
