-- ===== src/Index/Weights.antt =====
-- The weighted term frequencies: a token of the title counts three times, others once.
use Prim.Native.Nat.{◌*◌}
use shadow_se.Base.{
  ℕ, ◌+◌, ◌%◌, ◌^◌, ◌<◌, Option, none, some, List, [], ◌∷◌, ◌++◌, same_bytes, same_bytes_iff,
  if◌then◌else◌, Bytes, ◌≡◌, refl, sym, ap, append_assoc, append-nil, ==_iff, ◌∙◌, arith,
  Bool-cases, inl, inr,
}
use shadow_se.Base.Map.{Map, find, bytes_key, nat_key, find-put, find-erase, IsUnique, put-IsUnique}
use shadow_se.Tokenizer.{tokenize}
use shadow_se.Document.{Document}
use shadow_se.Index.{
  Terms, InvertedIndex, or_zero, bump, count_tokens, index_text, add_scaled, term_freqs, unindex,
  push_term, push_terms, assign_id, store_document, add_document,
}
use shadow_se.Index.Agreement.{
  Agrees, posted, recorded, freqs_at, add_document-Agrees, recorded-push_term,
}
use shadow_se.Index.Store.{IsLinked}

-- The frequency of a term, 0 if it is missing.
abbrev pub freq : Bytes → Map Bytes ℕ → ℕ
freq x m = or_zero (find x m)

-- How often a token occurs.
unfoldable pub count : Bytes → List Bytes → ℕ
count x [] = 0
count x (tok ∷ toks) = (if same_bytes tok x then 1 else 0) + count x toks

abbrev IsSmall : Map Bytes ℕ → Type 0
IsSmall m = (x : Bytes) → freq x m < 2 ^ 32

freq-bump :
    (x term : Bytes) (n : ℕ) (m : Map Bytes ℕ)
    → freq x (bump term n m) ≡ (if same_bytes term x then (freq term m + n) % 2 ^ 32 else freq x m)
unfolding bump
freq-bump x term n m = rw find-put (ground arith)

bump-IsSmall : (term : Bytes) (n : ℕ) (m : Map Bytes ℕ) → IsSmall m → IsSmall (bump term n m)
bump-IsSmall term n m h x = rw freq-bump (ground (arith, h x))

bump-IsUnique : (term : Bytes) (n : ℕ) (m : Map Bytes ℕ) → IsUnique m → IsUnique (bump term n m)
unfolding bump
bump-IsUnique term n m h = put-IsUnique term _ m h

count_tokens-IsUnique :
    (toks : List Bytes) (m : Map Bytes ℕ) → IsUnique m → IsUnique (count_tokens toks m)
unfolding count_tokens
count_tokens-IsUnique [] m h = h
count_tokens-IsUnique (tok ∷ toks) m h = count_tokens-IsUnique toks _ (bump-IsUnique tok 1 m h)

count_tokens-IsSmall :
    (toks : List Bytes) (m : Map Bytes ℕ) → IsSmall m → IsSmall (count_tokens toks m)
unfolding count_tokens
count_tokens-IsSmall [] m h = h
count_tokens-IsSmall (tok ∷ toks) m h = count_tokens-IsSmall toks _ (bump-IsSmall tok 1 m h)

freq-count_tokens :
    (x : Bytes) (toks : List Bytes) (m : Map Bytes ℕ)
    → IsSmall m
    → freq x (count_tokens toks m) ≡ (freq x m + count x toks) % 2 ^ 32
unfolding count_tokens count
freq-count_tokens x [] m h = omega (arith, h x)
freq-count_tokens x (tok ∷ toks) m h =
    freq-count_tokens x toks (bump tok 1 m) (bump-IsSmall tok 1 m h)
    ∙ rw freq-bump (ground (arith, same_bytes_iff tok x))

add_scaled-IsUnique : (s : ℕ) (other m : Map Bytes ℕ) → IsUnique m → IsUnique (add_scaled s other m)
unfolding add_scaled
add_scaled-IsUnique s [] m h = h
add_scaled-IsUnique s ((term, f) ∷ other) m h =
    add_scaled-IsUnique s other _ (bump-IsUnique term _ m h)

add_scaled-IsSmall : (s : ℕ) (other m : Map Bytes ℕ) → IsSmall m → IsSmall (add_scaled s other m)
unfolding add_scaled
add_scaled-IsSmall s [] m h = h
add_scaled-IsSmall s ((term, f) ∷ other) m h =
    add_scaled-IsSmall s other _ (bump-IsSmall term _ m h)

freq-add_scaled :
    (s : ℕ) (x : Bytes) (other m : Map Bytes ℕ)
    → IsUnique other
    → IsSmall m
    → freq x (add_scaled s other m) ≡ (freq x m + s * freq x other) % 2 ^ 32
unfolding add_scaled find
freq-add_scaled s x [] m u h = omega (arith, h x)
freq-add_scaled s x ((term, f) ∷ other) m u h =
    freq-add_scaled s x other _ u.1 (bump-IsSmall term _ m h)
    ∙ rw freq-bump (elim (Bool-cases (same_bytes term x)) [
      | inl same ↦
          let absent : freq x other ≡ 0 = ground (arith, same_bytes_iff term x, u.0) in
          rw (same, absent) (ground (arith, same_bytes_iff term x))
      | inr different ↦ rw different refl
    ])

module _ (doc : Document) where
  abbrev title_map : Map Bytes ℕ
  title_map = index_text doc.title []

  abbrev body_map : Map Bytes ℕ
  body_map = index_text doc.content (index_text doc.snippet [])

  empty-IsSmall : IsSmall []
  unfolding find
  empty-IsSmall x = omega arith

  title-IsSmall : IsSmall title_map
  unfolding index_text
  title-IsSmall = count_tokens-IsSmall (tokenize doc.title) [] empty-IsSmall

  title-IsUnique : IsUnique title_map
  unfolding index_text
  title-IsUnique = count_tokens-IsUnique (tokenize doc.title) [] tt

  body-IsUnique : IsUnique body_map
  unfolding index_text
  body-IsUnique =
      count_tokens-IsUnique (tokenize doc.content) _
        (count_tokens-IsUnique (tokenize doc.snippet) [] tt)

  freq-title : (x : Bytes) → freq x title_map ≡ count x (tokenize doc.title) % 2 ^ 32
  unfolding index_text find
  freq-title x = omega (arith, freq-count_tokens x (tokenize doc.title) [] empty-IsSmall)

  freq-body :
      (x : Bytes)
      → freq x body_map ≡ (count x (tokenize doc.snippet) + count x (tokenize doc.content)) % 2 ^ 32
  unfolding index_text find
  freq-body x =
      freq-count_tokens x (tokenize doc.content) _
        (count_tokens-IsSmall (tokenize doc.snippet) [] empty-IsSmall)
      ∙ rw (freq-count_tokens x (tokenize doc.snippet) [] empty-IsSmall) (omega arith)

  term_freqs-IsUnique : IsUnique (term_freqs doc)
  unfolding term_freqs
  term_freqs-IsUnique =
      add_scaled-IsUnique 2 title_map _ (add_scaled-IsUnique 1 body_map _ title-IsUnique)

  -- The weight of a term in a document is, modulo 2 ^ 32, three times its count in the title plus
  -- its counts in the snippet and in the content.
  pub freq-term_freqs :
      (x : Bytes)
      → freq x (term_freqs doc)
        ≡ (3 * count x (tokenize doc.title)
            + count x (tokenize doc.snippet)
            + count x (tokenize doc.content))
          % 2 ^ 32
  unfolding term_freqs
  freq-term_freqs x =
      freq-add_scaled 2 x title_map _ title-IsUnique
        (add_scaled-IsSmall 1 body_map title_map title-IsSmall)
      ∙ rw (freq-add_scaled 1 x body_map title_map body-IsUnique title-IsSmall)
          (omega (arith, freq-title x, freq-body x))

-- A map with one entry for each term has at most one frequency of it.
freqs_at-find :
    (x : Bytes) (m : Map Bytes ℕ)
    → IsUnique m
    → freqs_at x m ≡ elim (find x m) [ none ↦ [] | some f ↦ f ∷ [] ]
unfolding freqs_at find
freqs_at-find x [] u = refl
freqs_at-find x ((term, f) ∷ m) u =
    ground (arith, freqs_at-find x m u.1, same_bytes_iff term x, u.0)

recorded-push_terms :
    (id : ℕ) (x : Bytes) (terms : Terms) (t : InvertedIndex)
    → recorded id x (push_terms id terms t).doc_terms
      ≡ recorded id x t.doc_terms ++ freqs_at x terms
unfolding push_terms freqs_at
recorded-push_terms id x [] t = sym (append-nil _)
recorded-push_terms id x ((term, f) ∷ terms) t =
    recorded-push_terms id x terms (push_term id term f t)
    ∙ rw recorded-push_term
        (rw append_assoc (ap (λ l. recorded id x t.doc_terms ++ l) (ground (arith, ==_iff id id))))

-- The id that `addDocument` works under has no terms yet.
assign_id-clean :
    (url : Bytes) (o : Option ℕ) (t : InvertedIndex) (x : Bytes)
    → IsLinked t
    → recorded (assign_id url o t).0 x (assign_id url o t).1.doc_terms ≡ []
unfolding assign_id unindex freqs_at
assign_id-clean url (some id) t x v = rw find-erase (ground (arith, ==_iff id id))
assign_id-clean url none t x v = rw (v.clean t.next_id (unstored (find t.next_id t.docs) refl)) refl
  where
    unstored : (o : Option Document) → find t.next_id t.docs ≡ o → find t.next_id t.docs ≡ none
    unstored none e = e
    unstored (some d) e = absurd (omega (arith, v.below t.next_id d e))

recorded-store_document :
    (id : ℕ) (doc : Document) (t : InvertedIndex) (x : Bytes)
    → recorded id x (store_document id doc t).doc_terms
      ≡ recorded id x t.doc_terms ++ freqs_at x (term_freqs doc)
unfolding store_document
recorded-store_document id doc t x = recorded-push_terms id x (term_freqs doc) t

-- If postings and document terms agree and URLs, documents and ids are linked, then after an add
-- the postings of a term have the returned id once, with the term's weight in the new document,
-- or not at all if the document lacks the term.
pub posted-add_document :
    (doc : Document) (t : InvertedIndex) (x : Bytes)
    → Agrees t
    → IsLinked t
    → posted (add_document doc t).0 x (add_document doc t).1.postings
      ≡ elim (find x (term_freqs doc)) [ none ↦ [] | some f ↦ f ∷ [] ]
posted-add_document doc t x h v =
    add_document-Agrees doc t h (add_document doc t).0 x
    ∙ unfold add_document in
      recorded-store_document _ doc _ x
      ∙ rw (assign_id-clean doc.url (find doc.url t.url_to_id) t x v)
          (freqs_at-find x (term_freqs doc) (term_freqs-IsUnique doc))
