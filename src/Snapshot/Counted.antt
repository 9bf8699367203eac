-- ===== src/Snapshot/Counted.antt =====
-- src/snapshot.cpp: no snapshot gives more than ten million documents.
use shadow_se.Base.{
  ℕ, zero, suc, ◌≤◌, ◌≡◌, inl, inr, refl, Bool-cases, Option, none, some, List, ◌∷◌, ltb, ◌==◌,
  length, take, drop, Bytes, same_bytes, arith,
}
use shadow_se.Document.{Document}
use shadow_se.Snapshot.{
  Result, ok, err, max_count, version, magic, corrupt_body, read_u32, read_document, read_documents,
  read_body, read_version, deserialize_prefix, documents_of, deserialize_documents,
}

abbrev HasLength : ℕ → Option (List Document × Bytes) → Type 0
HasLength n none = Unit
HasLength n (some (docs, rest)) = length docs ≡ n

abbrev pub IsCounted : Result (List Document) → Type 0
IsCounted (ok docs) = length docs ≤ max_count
IsCounted (err f) = Unit

abbrev IsCountedPrefix : Result (List Document × Bytes) → Type 0
IsCountedPrefix (ok (docs, rest)) = length docs ≤ max_count
IsCountedPrefix (err f) = Unit

HasLength-cons :
    (n : ℕ) (d : Document) (found : Option (List Document × Bytes))
    → HasLength n found
    → HasLength (suc n) (elim found [ none ↦ none | some (ds, s) ↦ some (d ∷ ds, s) ])
HasLength-cons n d none h = tt
HasLength-cons n d (some (ds, s)) h = omega (arith, h)

HasLength-document :
    (n : ℕ) (found : Option (Document × Bytes))
    → ((s : Bytes) → HasLength n (read_documents n s))
    → HasLength (suc n) (elim found [
      | none ↦ none
      | some (d, s) ↦ elim (read_documents n s) [ none ↦ none | some (ds, s') ↦ some (d ∷ ds, s') ]
    ])
HasLength-document n none h = tt
HasLength-document n (some (d, s)) h = HasLength-cons n d (read_documents n s) (h s)

read_documents-HasLength : (n : ℕ) (s : Bytes) → HasLength n (read_documents n s)
unfolding read_documents
read_documents-HasLength zero s = refl
read_documents-HasLength (suc n) s =
    HasLength-document n (read_document s) (read_documents-HasLength n)

counted_prefix :
    (n : ℕ) (found : Option (List Document × Bytes))
    → n ≤ max_count
    → HasLength n found
    → IsCountedPrefix (elim found [ none ↦ err corrupt_body | some r ↦ ok r ])
counted_prefix n none low h = tt
counted_prefix n (some (docs, rest)) low h = omega (arith, h, low)

read_body-IsCountedPrefix : (header : Option (ℕ × Bytes)) → IsCountedPrefix (read_body header)
unfolding read_body
read_body-IsCountedPrefix none = tt
read_body-IsCountedPrefix (some (count, s)) = elim (Bool-cases (ltb max_count count)) [
  | inl e ↦ rw e tt
  | inr e ↦ rw e (
      counted_prefix count (read_documents count s) (ground (arith, e))
        (read_documents-HasLength count s))
]

read_version-IsCountedPrefix : (header : Option (ℕ × Bytes)) → IsCountedPrefix (read_version header)
unfolding read_version
read_version-IsCountedPrefix none = tt
read_version-IsCountedPrefix (some (v, s)) = elim (Bool-cases (v == version)) [
  | inl e ↦ rw e (read_body-IsCountedPrefix (read_u32 s))
  | inr e ↦ rw e tt
]

deserialize_prefix-IsCountedPrefix : (s : Bytes) → IsCountedPrefix (deserialize_prefix s)
unfolding deserialize_prefix
deserialize_prefix-IsCountedPrefix s = elim (Bool-cases (same_bytes (take 6 s) magic)) [
  | inl e ↦ rw e (read_version-IsCountedPrefix (read_u32 (drop 6 s)))
  | inr e ↦ rw e tt
]

documents_of-IsCounted :
    (r : Result (List Document × Bytes)) → IsCountedPrefix r → IsCounted (documents_of r)
unfolding documents_of
documents_of-IsCounted (ok (docs, rest)) h = h
documents_of-IsCounted (err f) h = tt

pub deserialize_documents-IsCounted : (s : Bytes) → IsCounted (deserialize_documents s)
unfolding deserialize_documents
deserialize_documents-IsCounted s =
    documents_of-IsCounted (deserialize_prefix s) (deserialize_prefix-IsCountedPrefix s)
