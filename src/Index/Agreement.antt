-- ===== src/Index/Agreement.antt =====
-- The postings and the terms kept for each document say the same, after every operation.
use shadow_se.Base.{
  ℕ, Bool, false, ◌&&◌, ◌||◌, Option, none, some, List, [], ◌∷◌, ◌++◌, ◌==◌, ==_iff, same_bytes,
  same_bytes_iff, if◌then◌else◌, Bytes, append-nil, ◌≡◌, refl, sym, ap, ◌∙◌, arith, Bool-cases, inl,
  inr,
}
use shadow_se.Base.Map.{Map, find, nat_key, bytes_key, find-put, find-erase}
use shadow_se.Document.{Document}
use shadow_se.Index.{
  Posting, Terms, InvertedIndex, empty, or_nil, without_doc, drop_list, remove_from,
  remove_postings, unindex, assign_id, push_term, push_terms, store_document, add_document,
  remove_found, remove_document, add_all, replace_all, term_freqs,
}

-- The frequencies that a postings list has for a document, and a document's terms for a term.
unfoldable pub freqs_of : ℕ → List Posting → List ℕ
freqs_of id [] = []
freqs_of id (p ∷ ps) =
    let rest = freqs_of id ps in if p.doc_id == id then p.term_freq ∷ rest else rest

unfoldable pub freqs_at : Bytes → Terms → List ℕ
freqs_at term [] = []
freqs_at term ((x, freq) ∷ terms) =
    let rest = freqs_at term terms in if same_bytes x term then freq ∷ rest else rest

abbrev pub posted : ℕ → Bytes → Map Bytes (List Posting) → List ℕ
posted id term m = freqs_of id (or_nil (find term m))

abbrev pub recorded : ℕ → Bytes → Map ℕ Terms → List ℕ
recorded id term m = freqs_at term (or_nil (find id m))

abbrev pub Agrees : InvertedIndex → Type 0
Agrees t = (id : ℕ) (term : Bytes) → posted id term t.postings ≡ recorded id term t.doc_terms

freqs_of-append :
    (id : ℕ) (ps qs : List Posting) → freqs_of id (ps ++ qs) ≡ freqs_of id ps ++ freqs_of id qs
unfolding freqs_of
freqs_of-append id [] qs = refl
freqs_of-append id (p ∷ ps) qs = ground (arith, freqs_of-append id ps qs)

freqs_at-append :
    (x : Bytes) (ts us : Terms) → freqs_at x (ts ++ us) ≡ freqs_at x ts ++ freqs_at x us
unfolding freqs_at
freqs_at-append x [] us = refl
freqs_at-append x ((y, f) ∷ ts) us = ground (arith, freqs_at-append x ts us)

module _ (id : ℕ) (term : Bytes) (freq : ℕ) (t : InvertedIndex) (i : ℕ) (x : Bytes) where
  -- A pushed term is one more frequency of its document, in both.
  posted-push_term :
      posted i x (push_term id term freq t).postings
      ≡ posted i x t.postings ++ (if same_bytes term x && id == i then freq ∷ [] else [])
  unfolding push_term
  posted-push_term = rw find-put (elim (Bool-cases (same_bytes term x)) [
    | inl same ↦
        let e = (same_bytes_iff term x).0 same in
        rw (same, e, freqs_of-append) (unfold freqs_of in refl)
    | inr other ↦ rw (other, append-nil)
  ])

  pub recorded-push_term :
      recorded i x (push_term id term freq t).doc_terms
      ≡ recorded i x t.doc_terms ++ (if same_bytes term x && id == i then freq ∷ [] else [])
  unfolding push_term
  recorded-push_term = rw find-put (elim (Bool-cases (id == i)) [
    | inl same ↦
        let e = (==_iff id i).0 same in
        rw (same, e, freqs_at-append) (unfold freqs_at in ground arith)
    | inr other ↦ rw other (ground (arith, append-nil (recorded i x t.doc_terms)))
  ])

push_term-Agrees :
    (id : ℕ) (term : Bytes) (freq : ℕ) (t : InvertedIndex)
    → Agrees t
    → Agrees (push_term id term freq t)
push_term-Agrees id term freq t h i x =
    posted-push_term id term freq t i x
    ∙ ap (λ l. l ++ (if same_bytes term x && id == i then freq ∷ [] else [])) (h i x)
    ∙ sym (recorded-push_term id term freq t i x)

push_terms-Agrees :
    (id : ℕ) (terms : Terms) (t : InvertedIndex) → Agrees t → Agrees (push_terms id terms t)
unfolding push_terms
push_terms-Agrees id [] t h = h
push_terms-Agrees id ((term, freq) ∷ terms) t h =
    push_terms-Agrees id terms (push_term id term freq t) (push_term-Agrees id term freq t h)

-- `remove_if` on one list.
freqs_of-without_doc :
    (i id : ℕ) (ps : List Posting)
    → freqs_of i (without_doc id ps) ≡ (if id == i then [] else freqs_of i ps)
unfolding freqs_of without_doc
freqs_of-without_doc i id [] = ground arith
freqs_of-without_doc i id (p ∷ ps) = ground (arith, freqs_of-without_doc i id ps)

posted-drop_list :
    (i : ℕ) (x term : Bytes) (ps : List Posting) (m : Map Bytes (List Posting))
    → posted i x (drop_list term ps m) ≡ (if same_bytes term x then freqs_of i ps else posted i x m)
unfolding drop_list
posted-drop_list i x term [] m = rw find-erase (unfold freqs_of in ground arith)
posted-drop_list i x term (p ∷ ps) m = rw find-put (ground arith)

posted-remove_from :
    (i id : ℕ) (x term : Bytes) (o : Option (List Posting)) (m : Map Bytes (List Posting))
    → find term m ≡ o
    → posted i x (remove_from id term o m)
      ≡ (if same_bytes term x && id == i then [] else posted i x m)
unfolding remove_from
posted-remove_from i id x term none m e = unfold freqs_of in ground (arith, same_bytes_iff term x)
posted-remove_from i id x term (some ps) m e =
    posted-drop_list i x term (without_doc id ps) m
    ∙ ground (arith, freqs_of-without_doc i id ps, same_bytes_iff term x)

abbrev has_term : Bytes → Terms → Bool
has_term x [] = false
has_term x ((term, freq) ∷ terms) = same_bytes term x || has_term x terms

posted-remove_postings :
    (i id : ℕ) (x : Bytes) (terms : Terms) (m : Map Bytes (List Posting))
    → posted i x (remove_postings id terms m)
      ≡ (if has_term x terms && id == i then [] else posted i x m)
unfolding remove_postings
posted-remove_postings i id x [] m = refl
posted-remove_postings i id x ((term, freq) ∷ terms) m =
    posted-remove_postings i id x terms _
    ∙ rw (posted-remove_from i id x term (find term m) m refl) (ground arith)

freqs_at_absent : (x : Bytes) (terms : Terms) → has_term x terms ≡ false → freqs_at x terms ≡ []
unfolding freqs_at
freqs_at_absent x [] h = refl
freqs_at_absent x ((term, freq) ∷ terms) h = ground (arith, freqs_at_absent x terms)

-- After `unindex` no posting and no record names the document; the others keep theirs.
posted-unindex :
    (i id : ℕ) (x : Bytes) (t : InvertedIndex)
    → Agrees t
    → posted i x (unindex id t).postings ≡ (if id == i then [] else posted i x t.postings)
unfolding unindex
posted-unindex i id x t h =
    let terms = or_nil (find id t.doc_terms) in
    posted-remove_postings i id x terms t.postings ∙ ground (arith, h i x, freqs_at_absent x terms)

unindex-Agrees : (id : ℕ) (t : InvertedIndex) → Agrees t → Agrees (unindex id t)
unfolding unindex
unindex-Agrees id t h i x =
    posted-unindex i id x t h ∙ rw find-erase (unfold freqs_at in ground (arith, h i x))

assign_id-Agrees :
    (url : Bytes) (o : Option ℕ) (t : InvertedIndex) → Agrees t → Agrees (assign_id url o t).1
unfolding assign_id
assign_id-Agrees url none t h = h
assign_id-Agrees url (some id) t h = unindex-Agrees id t h

store_document-Agrees :
    (id : ℕ) (doc : Document) (t : InvertedIndex) → Agrees t → Agrees (store_document id doc t)
unfolding store_document
store_document-Agrees id doc t h = push_terms-Agrees id (term_freqs doc) t h

-- Adding or replacing a document keeps postings and records in agreement.
pub add_document-Agrees :
    (doc : Document) (t : InvertedIndex) → Agrees t → Agrees (add_document doc t).1
unfolding add_document
add_document-Agrees doc t h =
    store_document-Agrees _ doc _ (assign_id-Agrees doc.url (find doc.url t.url_to_id) t h)

remove_found-Agrees :
    (id : ℕ) (o : Option Document) (t : InvertedIndex) → Agrees t → Agrees (remove_found id o t)
unfolding remove_found
remove_found-Agrees id none t h = h
remove_found-Agrees id (some doc) t h = unindex-Agrees id t h

pub remove_document-Agrees : (id : ℕ) (t : InvertedIndex) → Agrees t → Agrees (remove_document id t)
unfolding remove_document
remove_document-Agrees id t h = remove_found-Agrees id (find id t.docs) t h

empty-Agrees : Agrees empty
unfolding find freqs_of freqs_at
empty-Agrees id term = refl

add_all-Agrees : (docs : List Document) (t : InvertedIndex) → Agrees t → Agrees (add_all docs t)
unfolding add_all
add_all-Agrees [] t h = h
add_all-Agrees (d ∷ ds) t h = add_all-Agrees ds _ (add_document-Agrees d t h)

-- A loaded snapshot leaves an index in agreement, whatever was in it before.
pub replace_all-Agrees : (docs : List Document) (t : InvertedIndex) → Agrees (replace_all docs t)
unfolding replace_all
replace_all-Agrees docs t = add_all-Agrees docs empty empty-Agrees

-- If postings and document terms agree, removing a stored document takes its id out of the
-- postings of every term and leaves every other id its frequencies.
pub posted-remove_document :
    (t : InvertedIndex) (id : ℕ) (doc : Document) (other : ℕ) (term : Bytes)
    → Agrees t
    → find id t.docs ≡ some doc
    → posted other term (remove_document id t).postings
      ≡ (if id == other then [] else posted other term t.postings)
unfolding remove_document
posted-remove_document t id doc other term h e =
    rw (e, remove_found) (posted-unindex other id term t h)
