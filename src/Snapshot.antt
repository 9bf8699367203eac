-- ===== src/Snapshot.antt =====
-- src/snapshot.cpp: the plain snapshot format. A `Reader` is the rest of the data from its `pos`.
pub mod RoundTrip
pub mod Truncation
pub mod Files
pub mod Counted
use shadow_se.Base.{
  ℕ, zero, suc, ◌+◌, ◌*◌, ◌/◌, ◌%◌, ◌^◌, Bool, true, false, not, Option, none, some, List, [], ◌∷◌,
  ◌++◌, ltb, ◌==◌, if◌then◌else◌, length, take, drop, Bytes, codes, same_bytes,
}
use shadow_se.Document.{Document, SourceType, clear_web, onion}

-- kMagic, with its terminating zero, and kSnapshotVersion.
abbrev pub magic : Bytes
magic = codes "SHSE1" ++ 0 ∷ []

abbrev pub version : ℕ
version = 1

unfoldable pub push_u32 : Bytes → ℕ → Bytes
push_u32 out v = out ++ (v % 256 ∷ v / 256 % 256 ∷ v / 65536 % 256 ∷ v / 16777216 % 256 ∷ [])

unfoldable pub push_u8 : Bytes → ℕ → Bytes
push_u8 out v = out ++ v ∷ []

-- The length is cast to 32 bits.
unfoldable pub push_str : Bytes → Bytes → Bytes
unfolding push_u32
push_str out s = push_u32 out (length s % 2 ^ 32) ++ s

unfoldable pub source_byte : SourceType → ℕ
source_byte clear_web = 0
source_byte onion = 1

unfoldable pub serialize_one : Document → Bytes
unfolding push_u32 push_u8 push_str source_byte
serialize_one d =
    let out = push_str (push_str (push_str (push_str [] d.url) d.title) d.snippet) d.content in
    push_u32 (push_u8 out (source_byte d.source)) d.depth

unfoldable pub serialize_onto : Bytes → List Document → Bytes
unfolding serialize_one
serialize_onto out [] = out
serialize_onto out (d ∷ ds) = serialize_onto (out ++ serialize_one d) ds

unfoldable pub serialize_documents : List Document → Bytes
unfolding push_u32 serialize_onto
serialize_documents docs =
    serialize_onto (push_u32 (push_u32 magic version) (length docs % 2 ^ 32)) docs

-- A read gives the value and the data behind it, or fails.
abbrev pub Read : Type 0 → Type 0
Read A = Bytes → Option (A × Bytes)

infixl 5 ◌>>=◌ ◌>>◌
abbrev pub ◌>>=◌ : {A B : Type 0} → Read A → (A → Read B) → Read B
◌>>=◌ m f s = elim (m s) [ none ↦ none | some (a, s') ↦ f a s' ]

abbrev pub ◌>>◌ : {B : Type 0} → Read (Unit {0}) → Read B → Read B
m >> k = m >>= λ _. k

abbrev pub pure : {A : Type 0} → A → Read A
pure a s = some (a, s)

unfoldable pub read_u8 : Read ℕ
read_u8 [] = none
read_u8 (c ∷ s) = some (c, s)

unfoldable pub read_u32 : Read ℕ
read_u32 (a ∷ b ∷ c ∷ d ∷ s) = some (a + b * 256 + c * 65536 + d * 16777216, s)
read_u32 _ = none

-- `len` bytes, if so many are left.
unfoldable pub read_bytes : ℕ → Read Bytes
read_bytes n s = if ltb (length s) n then none else some (take n s, drop n s)

unfoldable pub read_str : Read Bytes
read_str = do n ← read_u32; read_bytes n

unfoldable pub source_of : ℕ → SourceType
source_of n = if n == 1 then onion else clear_web

-- One round of the loop of `deserializeDocuments`; `id` is left at its default.
unfoldable pub read_document : Read Document
read_document = do
  url ← read_str
  title ← read_str
  snippet ← read_str
  content ← read_str
  source ← read_u8
  depth ← read_u32
  pure (record {
    id = 0;
    url = url;
    title = title;
    snippet = snippet;
    content = content;
    source = source_of source;
    depth = depth;
  })

unfoldable pub read_documents : ℕ → Read (List Document)
read_documents zero = pure []
read_documents (suc n) = do d ← read_document; ds ← read_documents n; pure (d ∷ ds)

pub data Failure : Type 0 where
  bad_magic unsupported_version corrupt_header implausible_count corrupt_body : Failure

pub data Result {ℓ} (A : Type ℓ) : Type ℓ where
  ok : A → Result A
  err : Failure → Result A

abbrev pub max_count : ℕ
max_count = 10_000_000

unfoldable pub read_body : Option (ℕ × Bytes) → Result (List Document × Bytes)
read_body none = err corrupt_header
read_body (some (count, s)) =
    if ltb max_count count
    then err implausible_count
    else elim (read_documents count s) [ none ↦ err corrupt_body | some r ↦ ok r ]

unfoldable pub read_version : Option (ℕ × Bytes) → Result (List Document × Bytes)
read_version none = err unsupported_version
read_version (some (v, s)) =
    if v == version then read_body (read_u32 s) else err unsupported_version

-- `deserializeDocuments`, with the data that it leaves unread.
unfoldable pub deserialize_prefix : Bytes → Result (List Document × Bytes)
deserialize_prefix s =
    if same_bytes (take 6 s) magic then read_version (read_u32 (drop 6 s)) else err bad_magic

unfoldable pub documents_of : Result (List Document × Bytes) → Result (List Document)
documents_of (ok (docs, rest)) = ok docs
documents_of (err f) = err f

unfoldable pub deserialize_documents : Bytes → Result (List Document)
unfolding documents_of
deserialize_documents s = documents_of (deserialize_prefix s)
