-- ===== src/Snapshot/Truncation.antt =====
-- A snapshot that was cut short is refused, wherever it was cut.
use shadow_se.Base.{
  ℕ, zero, suc, ◌≤◌, ◌<◌, Option, none, some, List, [], ◌∷◌, ◌++◌, ltb, length, take, drop, Bytes,
  same_bytes, same_bytes_iff, ◌≡◌, ◌≢◌, refl, sym, ap, ◌∙◌, arith, All, append-nil, length-append,
  take-append_le, drop-append_le, take-append-drop, length-drop, length-take-le-length,
  append-eq-nil, Bool-cases, inl, inr,
}
use shadow_se.Document.{Document}
use shadow_se.Snapshot.{
  serialize_documents, read_u8, read_u32, read_bytes, read_str, Read, read_document, read_documents,
  read_body, read_version, deserialize_prefix, deserialize_documents, Result, ok, err, magic,
  max_count, documents_of, ◌>>=◌, pure,
}
use shadow_se.Snapshot.RoundTrip.{Fits, deserialize_prefix-serialize, bind-some}

-- A reader that succeeds does the same where more data follows.
record Extends {A : Type 0} (m : Read A) : Type 0 where
  at : (s t : Bytes) (a : A) (r : Bytes) → m s ≡ some (a, r) → m (s ++ t) ≡ some (a, r ++ t)

Extends-pure : {A : Type 0} (a : A) → Extends (pure a)
Extends-pure a = record { at = λ s t b r h. ground arith }

bind-none :
    {A B : Type 0} (m : Read A) (f : A → Read B) (s : Bytes) → m s ≡ none → (m >>= f) s ≡ none
bind-none m f s e = rw (e, ◌>>=◌)

bind-eq-some :
    {A B : Type 0} (m : Read A) (f : A → Read B) (s : Bytes) (o : Option (A × Bytes)) (b : B)
    (r : Bytes)
    → m s ≡ o
    → (m >>= f) s ≡ some (b, r)
    → (a : A) × (s' : Bytes) × (m s ≡ some (a, s')) × (f a s' ≡ some (b, r))
bind-eq-some m f s none b r e h = absurd (cc (bind-none m f s e))
bind-eq-some m f s (some (a, s')) b r e h = (a, s', e, sym (bind-some m f s e) ∙ h)

Extends-bind :
    {A B : Type 0} (m : Read A) (f : A → Read B)
    → Extends m
    → ((a : A) → Extends (f a))
    → Extends (m >>= f)
Extends-bind m f hm hf = record {
  at = λ s t b r h.
      let (a, s', e, k) = bind-eq-some m f s (m s) b r refl h in
      bind-some m f (s ++ t) (hm.at s t a s' e) ∙ (hf a).at s' t b r k;
}

Extends-read_u8 : Extends read_u8
unfolding read_u8
Extends-read_u8 = record { at = go }
  where
    go :
        (s t : Bytes) (a : ℕ) (r : Bytes)
        → read_u8 s ≡ some (a, r)
        → read_u8 (s ++ t) ≡ some (a, r ++ t)
    go [] t a r h = absurd (cc)
    go (c ∷ s) t a r h = ground arith

Extends-read_u32 : Extends read_u32
unfolding read_u32
Extends-read_u32 = record { at = go }
  where
    go :
        (s t : Bytes) (a : ℕ) (r : Bytes)
        → read_u32 s ≡ some (a, r)
        → read_u32 (s ++ t) ≡ some (a, r ++ t)
    go (a ∷ b ∷ c ∷ d ∷ s) t x r h = ground arith
    go _ t x r h = absurd (cc)

Extends-read_bytes : (n : ℕ) → Extends (read_bytes n)
unfolding read_bytes
Extends-read_bytes n = record { at = go }
  where
    go :
        (s t : Bytes) (a r : Bytes)
        → read_bytes n s ≡ some (a, r)
        → read_bytes n (s ++ t) ≡ some (a, r ++ t)
    go s t a r h = elim (Bool-cases (ltb (length s) n)) [
      | inl short ↦ ground arith
      | inr enough ↦ ground (arith, length-append s t, take-append_le n s t, drop-append_le n s t)
    ]

ruleset extends_rules =
    (Extends-pure, Extends-bind, Extends-read_u8, Extends-read_u32, Extends-read_bytes)

Extends-read_str : Extends read_str
unfolding read_str
Extends-read_str = search extends_rules

Extends-read_document : Extends read_document
unfolding read_document
Extends-read_document = search (extends_rules, Extends-read_str) depth 20

Extends-read_documents : (n : ℕ) → Extends (read_documents n)
unfolding read_documents
Extends-read_documents zero = search extends_rules
Extends-read_documents (suc n) =
    Extends-bind _ _ Extends-read_document
      λ d. Extends-bind _ _ (Extends-read_documents n) λ ds. Extends-pure (d ∷ ds)

-- `deserialize_prefix` does too.
read_body-append :
    (s t : Bytes) (n : ℕ) (ds : List Document) (r : Bytes)
    → read_body (some (n, s)) ≡ ok (ds, r)
    → read_body (some (n, s ++ t)) ≡ ok (ds, r ++ t)
unfolding read_body
read_body-append s t n ds r h = ground (arith, (Extends-read_documents n).at s t ds r)

read_body-read_u32 :
    (s t : Bytes) (o : Option (ℕ × Bytes)) (ds : List Document) (r : Bytes)
    → read_u32 s ≡ o
    → read_body o ≡ ok (ds, r)
    → read_body (read_u32 (s ++ t)) ≡ ok (ds, r ++ t)
unfolding read_body
read_body-read_u32 s t none ds r e h = absurd (cc)
read_body-read_u32 s t (some (n, s')) ds r e h =
    rw (Extends-read_u32.at s t n s' e) (read_body-append s' t n ds r h)

read_version-read_u32 :
    (s t : Bytes) (o : Option (ℕ × Bytes)) (ds : List Document) (r : Bytes)
    → read_u32 s ≡ o
    → read_version o ≡ ok (ds, r)
    → read_version (read_u32 (s ++ t)) ≡ ok (ds, r ++ t)
unfolding read_version
read_version-read_u32 s t none ds r e h = absurd (cc)
read_version-read_u32 s t (some (v, s')) ds r e h =
    rw (Extends-read_u32.at s t v s' e)
      (ground (arith, read_body-read_u32 s' t (read_u32 s') ds r refl))

length-magic : (s : Bytes) → take 6 s ≡ magic → 6 ≤ length s
length-magic s e = omega (arith, ap length e, length-take-le-length 6 s)

deserialize_prefix-append :
    (s t : Bytes) (ds : List Document) (r : Bytes)
    → deserialize_prefix s ≡ ok (ds, r)
    → deserialize_prefix (s ++ t) ≡ ok (ds, r ++ t)
unfolding deserialize_prefix
deserialize_prefix-append s t ds r h = elim (Bool-cases (same_bytes (take 6 s) magic)) [
  | inl m ↦
      let long = length-magic s ((same_bytes_iff (take 6 s) magic).0 m) in
      ground (
        arith,
        take-append_le 6 s t,
        drop-append_le 6 s t,
        read_version-read_u32 (drop 6 s) t (read_u32 (drop 6 s)) ds r refl,
      )
  | inr bad ↦ absurd (ground arith)
]

-- The same for `deserialize_documents`, whose result hides what was left.
prefix_of :
    (s : Bytes) (p : Result (List Document × Bytes)) (ds : List Document)
    → deserialize_prefix s ≡ p
    → documents_of p ≡ ok ds
    → (r : Bytes) × (deserialize_prefix s ≡ ok (ds, r))
unfolding documents_of
prefix_of s (ok (xs, r)) ds e h = (r, ground arith)
prefix_of s (err f) ds e h = absurd (cc)

-- Of the serialization of documents that fit, at most ten million, no proper prefix is accepted,
-- whatever documents it might be read as.
pub deserialize-take :
    (ds : List Document) (n : ℕ) (found : List Document)
    → All Fits ds
    → length ds ≤ max_count
    → n < length (serialize_documents ds)
    → deserialize_documents (take n (serialize_documents ds)) ≢ ok found
unfolding deserialize_documents
deserialize-take ds n found h k short e =
    let all = serialize_documents ds in
    let (r, p) = prefix_of (take n all) (deserialize_prefix (take n all)) found refl e in
    let q = deserialize_prefix-append (take n all) (drop n all) found r p in
    let w = deserialize_prefix-serialize ds [] h k in
    let nothing : r ++ drop n all ≡ [] = cc (take-append-drop n all, append-nil all) in
    omega (arith, length-drop n all, ap length (append-eq-nil r (drop n all) nothing))
