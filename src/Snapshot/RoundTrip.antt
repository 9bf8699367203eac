-- ===== src/Snapshot/RoundTrip.antt =====
-- Reading back what `serialize_documents` wrote.
use shadow_se.Base.{
  ℕ, ◌/◌, ◌%◌, ◌^◌, ◌≤◌, ◌<◌, some, List, [], ◌∷◌, map, ◌++◌, length, Bytes, same_bytes, ◌≡◌, refl,
  sym, ap, ◌∙◌, arith, All, append_assoc, append-nil, length-append, take-length-append,
  drop-length-append,
}
use shadow_se.Document.{Document, SourceType, clear_web, onion}
use shadow_se.Snapshot.{
  source_byte, serialize_one, serialize_onto, serialize_documents, read_u8, read_u32, read_bytes,
  read_str, source_of, Read, read_document, read_documents, read_body, read_version,
  deserialize_prefix, deserialize_documents, ok, magic, version, max_count, documents_of, ◌>>=◌,
}

-- What a written document must meet to be read back: its lengths and its depth fit 32 bits.
pub record Fits (d : Document) : Type 0 where
  pub url : length d.url < 2 ^ 32
  pub title : length d.title < 2 ^ 32
  pub snippet : length d.snippet < 2 ^ 32
  pub content : length d.content < 2 ^ 32
  pub depth : d.depth < 2 ^ 32

-- A document as it comes back: its id is not stored.
abbrev pub stored : Document → Document
stored d = record d { id = 0 }

u32 : ℕ → Bytes
u32 v = v % 256 ∷ v / 256 % 256 ∷ v / 65536 % 256 ∷ v / 16777216 % 256 ∷ []

str : Bytes → Bytes
str s = u32 (length s % 2 ^ 32) ++ s

-- A document's bytes in front of what follows them.
layout : Document → Bytes → Bytes
layout d rest =
    str d.url
    ++ (str d.title
        ++ (str d.snippet ++ (str d.content ++ source_byte d.source ∷ (u32 d.depth ++ rest))))

serialize_one-layout : (d : Document) (rest : Bytes) → serialize_one d ++ rest ≡ layout d rest
unfolding serialize_one layout u32 str
serialize_one-layout d rest = simp append_assoc

read_u32-u32 : (v : ℕ) (rest : Bytes) → v < 2 ^ 32 → read_u32 (u32 v ++ rest) ≡ some (v, rest)
unfolding read_u32 u32
read_u32-u32 v rest h = ground arith

read_bytes-append : (s rest : Bytes) → read_bytes (length s) (s ++ rest) ≡ some (s, rest)
unfolding read_bytes
read_bytes-append s rest =
    ground (arith, length-append s rest, take-length-append s rest, drop-length-append s rest)

pub bind-some :
    {A B : Type 0} (m : Read A) (f : A → Read B) (s : Bytes) {a : A} {s' : Bytes}
    → m s ≡ some (a, s')
    → (m >>= f) s ≡ f a s'
bind-some m f s e = rw (e, ◌>>=◌)

read_str-str : (s rest : Bytes) → length s < 2 ^ 32 → read_str (str s ++ rest) ≡ some (s, rest)
unfolding read_str str
read_str-str s rest h =
    let small : length s % 2 ^ 32 ≡ length s = omega arith in
    rw (append_assoc, small)
      (bind-some read_u32 read_bytes _ (read_u32-u32 (length s) (s ++ rest) h)
        ∙ read_bytes-append s rest)

source_of-source_byte : (t : SourceType) → source_of (source_byte t) ≡ t
unfolding source_of source_byte
source_of-source_byte clear_web = refl
source_of-source_byte onion = refl

read_u8-cons : (c : ℕ) (rest : Bytes) → read_u8 (c ∷ rest) ≡ some (c, rest)
unfolding read_u8
read_u8-cons c rest = refl

read_document-layout :
    (d : Document) (rest : Bytes) → Fits d → read_document (layout d rest) ≡ some (stored d, rest)
unfolding read_document layout
read_document-layout d rest f =
    bind-some read_str _ _ (read_str-str d.url _ f.url)
    ∙ bind-some read_str _ _ (read_str-str d.title _ f.title)
    ∙ bind-some read_str _ _ (read_str-str d.snippet _ f.snippet)
    ∙ bind-some read_str _ _ (read_str-str d.content _ f.content)
    ∙ bind-some read_u8 _ _ (read_u8-cons (source_byte d.source) _)
    ∙ bind-some read_u32 _ _ (read_u32-u32 d.depth rest f.depth)
    ∙ rw source_of-source_byte

-- The documents in front of what follows them.
layouts : List Document → Bytes → Bytes
layouts [] rest = rest
layouts (d ∷ ds) rest = layout d (layouts ds rest)

serialize_onto-layouts :
    (out : Bytes) (ds : List Document) (rest : Bytes)
    → serialize_onto out ds ++ rest ≡ out ++ layouts ds rest
unfolding serialize_onto layouts
serialize_onto-layouts out [] rest = refl
serialize_onto-layouts out (d ∷ ds) rest =
    serialize_onto-layouts (out ++ serialize_one d) ds rest
    ∙ append_assoc out (serialize_one d) (layouts ds rest)
    ∙ rw serialize_one-layout

read_documents-layouts :
    (ds : List Document) (rest : Bytes)
    → All Fits ds
    → read_documents (length ds) (layouts ds rest) ≡ some (map stored ds, rest)
unfolding read_documents layouts
read_documents-layouts [] rest h = refl
read_documents-layouts (d ∷ ds) rest h =
    bind-some read_document _ _ (read_document-layout d _ h.0)
    ∙ bind-some (read_documents (length ds)) _ _ (read_documents-layouts ds rest h.1)

read_body-layouts :
    (ds : List Document) (rest : Bytes)
    → All Fits ds
    → length ds ≤ max_count
    → read_body (some (length ds, layouts ds rest)) ≡ ok (map stored ds, rest)
unfolding read_body
read_body-layouts ds rest h k = ground (arith, read_documents-layouts ds rest h)

header : ℕ → Bytes → Bytes
header n rest = magic ++ (u32 version ++ (u32 n ++ rest))

serialize_documents-layouts :
    (ds : List Document) (rest : Bytes)
    → serialize_documents ds ++ rest ≡ header (length ds % 2 ^ 32) (layouts ds rest)
unfolding serialize_documents header u32
serialize_documents-layouts ds rest = serialize_onto-layouts _ ds rest

deserialize_prefix-header :
    (n : ℕ) (rest : Bytes)
    → n < 2 ^ 32
    → deserialize_prefix (header n rest) ≡ read_body (some (n, rest))
unfolding deserialize_prefix same_bytes read_version header
deserialize_prefix-header n rest h =
    rw (read_u32-u32 version (u32 n ++ rest) (omega arith)) (ap read_body (read_u32-u32 n rest h))

-- Documents that fit are read back, but for their ids, and what follows them is left.
pub deserialize_prefix-serialize :
    (ds : List Document) (rest : Bytes)
    → All Fits ds
    → length ds ≤ max_count
    → deserialize_prefix (serialize_documents ds ++ rest) ≡ ok (map stored ds, rest)
deserialize_prefix-serialize ds rest h k =
    let small : length ds % 2 ^ 32 ≡ length ds = omega arith in
    rw (serialize_documents-layouts, small)
      (deserialize_prefix-header (length ds) _ (omega arith) ∙ read_body-layouts ds rest h k)

-- Documents whose lengths and depth fit 32 bits, at most ten million of them, are read back from
-- their serialization, but for the ids, which read as 0.
pub deserialize-serialize :
    (ds : List Document)
    → All Fits ds
    → length ds ≤ max_count
    → deserialize_documents (serialize_documents ds) ≡ ok (map stored ds)
unfolding deserialize_documents
deserialize-serialize ds h k = ap documents_of (
    ap deserialize_prefix (sym (append-nil (serialize_documents ds)))
    ∙ deserialize_prefix-serialize ds [] h k)
