-- ===== src/Ranking/Matches.antt =====
-- src/bm25.cpp: every result is a stored document with a posting of a term of the query.
use shadow_se.Base.{
  ℕ, zero, suc, ◌≡◌, refl, sym, inl, inr, Bool, true, false, Bool-cases, ◌||◌, Option, none, some,
  List, [], ◌∷◌, ◌==◌, All, take, Bytes, same_bytes, same_bytes_iff, subst, arith,
}
use shadow_se.Base.Map.{Map, nat_key, put}
use shadow_se.Document.{Document}
use shadow_se.Index.{InvertedIndex, Posting, postings_of, document, document_count}
use shadow_se.Index.Store.{IsLinked}
use shadow_se.Crawler.{member}
use shadow_se.Ranking.{
  Reals, Scored, text_before, insert_term, sort_terms, unique_from, unique_terms, query_terms,
  average_doc_length, add_posting, add_postings, add_found, add_terms, add_result, results_of,
  before, insert_result, sort_results, rank_terms, rank,
}

unfoldable pub has_posting : ℕ → List Posting → Bool
has_posting id [] = false
has_posting id (p ∷ ps) = p.doc_id == id || has_posting id ps

unfoldable pub posted_in : ℕ → Option (List Posting) → Bool
unfolding has_posting
posted_in id none = false
posted_in id (some ps) = has_posting id ps

-- A term of the query has a posting of the document.
unfoldable pub is_match : InvertedIndex → List Bytes → ℕ → Bool
unfolding posted_in
is_match t [] id = false
is_match t (term ∷ terms) id = posted_in id (postings_of term t) || is_match t terms id

-- The terms of the query are tokens of it.

module _ (tokens : List Bytes) where
  abbrev IsToken : Bytes → Type 0
  IsToken term = member term tokens ≡ true

  insert_term-IsToken :
      (term : Bytes) (us : List Bytes)
      → IsToken term
      → All IsToken us
      → All IsToken (insert_term term us)
  unfolding insert_term
  insert_term-IsToken term [] h k = (h, tt)
  insert_term-IsToken term (u ∷ us) h k = elim (Bool-cases (text_before term u)) [
    | inl e ↦ rw e (h, k)
    | inr e ↦ rw e (k.0, insert_term-IsToken term us h k.1)
  ]

  sort_terms-IsToken : (ts : List Bytes) → All IsToken ts → All IsToken (sort_terms ts)
  unfolding sort_terms
  sort_terms-IsToken [] h = tt
  sort_terms-IsToken (term ∷ ts) h =
      insert_term-IsToken term (sort_terms ts) h.0 (sort_terms-IsToken ts h.1)

  unique_from-IsToken :
      (last : Bytes) (us : List Bytes) → All IsToken us → All IsToken (unique_from last us)
  unfolding unique_from
  unique_from-IsToken last [] h = tt
  unique_from-IsToken last (u ∷ us) h = elim (Bool-cases (same_bytes last u)) [
    | inl e ↦ rw e (unique_from-IsToken last us h.1)
    | inr e ↦ rw e (h.0, unique_from-IsToken u us h.1)
  ]

  unique_terms-IsToken : (ts : List Bytes) → All IsToken ts → All IsToken (unique_terms ts)
  unfolding unique_terms
  unique_terms-IsToken [] h = tt
  unique_terms-IsToken (term ∷ ts) h = (h.0, unique_from-IsToken term ts h.1)

  member_cons :
      (term : Bytes) (ts us : List Bytes)
      → All (λ u. member u ts ≡ true) us
      → All (λ u. member u (term ∷ ts) ≡ true) us
  unfolding member
  member_cons term ts [] h = tt
  member_cons term ts (u ∷ us) h = (ground (arith, h.0), member_cons term ts us h.1)

  member_self : (ts : List Bytes) → All (λ u. member u ts ≡ true) ts
  unfolding member
  member_self [] = tt
  member_self (t ∷ ts) = (ground (arith, same_bytes_iff t t), member_cons t ts ts (member_self ts))

query_terms-IsToken : (tokens : List Bytes) → All (IsToken tokens) (query_terms tokens)
unfolding query_terms
query_terms-IsToken tokens =
    unique_terms-IsToken tokens (sort_terms tokens)
      (sort_terms-IsToken tokens tokens (member_self tokens tokens))

pub posted_member :
    (t : InvertedIndex) (tokens : List Bytes) (term : Bytes) (id : ℕ)
    → member term tokens ≡ true
    → posted_in id (postings_of term t) ≡ true
    → is_match t tokens id ≡ true
unfolding is_match member
posted_member t [] term id h k = absurd (cc)
posted_member t (token ∷ tokens) term id h k = elim (Bool-cases (same_bytes token term)) [
  | inl e ↦
      let same = sym ((same_bytes_iff token term).0 e) in
      let here : posted_in id (postings_of token t) ≡ true =
        subst (λ u. posted_in id (postings_of u t) ≡ true) same k in
      ground (arith, here)
  | inr e ↦ ground (arith, posted_member t tokens term id (ground (arith, h, e)) k)
]

module _ (P : ℕ → Type 0) where
  postings_All :
      (ps : List Posting) → ((id : ℕ) → has_posting id ps ≡ true → P id) → All (λ p. P p.doc_id) ps
  unfolding has_posting
  postings_All [] h = tt
  postings_All (p ∷ ps) h =
      (h p.doc_id (ground arith), postings_All ps (λ id k. h id (ground (arith, k))))

module _ {D : Type 0} (reals : Reals D) (P : ℕ → Type 0) where
  -- Every document with a score has the property.
  abbrev Scores : Map ℕ D → Type 0
  Scores [] = Unit
  Scores ((id, score) ∷ m) = P id × Scores m

  put-Scores : (id : ℕ) (score : D) (m : Map ℕ D) → P id → Scores m → Scores (put id score m)
  unfolding put
  put-Scores id score [] h k = (h, tt)
  put-Scores id score ((j, w) ∷ m) h k = elim (Bool-cases (j == id)) [
    | inl e ↦ rw e k
    | inr e ↦ rw e (k.0, put-Scores id score m h k.1)
  ]

  add_postings-Scores :
      (k1 b avgdl weight : D) (t : InvertedIndex) (ps : List Posting) (accum : Map ℕ D)
      → All (λ p. P p.doc_id) ps
      → Scores accum
      → Scores (add_postings reals k1 b avgdl weight t ps accum)
  unfolding add_postings add_posting
  add_postings-Scores k1 b avgdl weight t [] accum h k = k
  add_postings-Scores k1 b avgdl weight t (p ∷ ps) accum h k =
      add_postings-Scores k1 b avgdl weight t ps (add_posting reals k1 b avgdl weight t p accum) h.1
        (put-Scores p.doc_id _ accum h.0 k)

  add_found-Scores :
      (k1 b total avgdl : D) (t : InvertedIndex) (found : Option (List Posting)) (accum : Map ℕ D)
      → ((id : ℕ) → posted_in id found ≡ true → P id)
      → Scores accum
      → Scores (add_found reals k1 b total avgdl t found accum)
  unfolding add_found posted_in
  add_found-Scores k1 b total avgdl t none accum h k = k
  add_found-Scores k1 b total avgdl t (some ps) accum h k =
      add_postings-Scores k1 b avgdl _ t ps accum (postings_All P ps h) k

  add_terms-Scores :
      (k1 b total avgdl : D) (t : InvertedIndex) (terms : List Bytes) (accum : Map ℕ D)
      → All (λ term. (id : ℕ) → posted_in id (postings_of term t) ≡ true → P id) terms
      → Scores accum
      → Scores (add_terms reals k1 b total avgdl t terms accum)
  unfolding add_terms
  add_terms-Scores k1 b total avgdl t [] accum h k = k
  add_terms-Scores k1 b total avgdl t (term ∷ terms) accum h k =
      add_terms-Scores k1 b total avgdl t terms _ h.1
        (add_found-Scores k1 b total avgdl t (postings_of term t) accum h.0 k)

module _ {D : Type 0} (reals : Reals D) (t : InvertedIndex) (tokens : List Bytes) where
  -- The result is a stored document, under its own id, that matches the query.
  abbrev pub IsFound : Scored D → Type 0
  IsFound r = (document r.doc.id t ≡ some r.doc) × (is_match t tokens r.doc.id ≡ true)

  add_result-IsFound :
      (id : ℕ) (found : Option Document) (score : D) (results : List (Scored D))
      → IsLinked t
      → found ≡ document id t
      → is_match t tokens id ≡ true
      → All IsFound results
      → All IsFound (add_result reals found score results)
  unfolding add_result document
  add_result-IsFound id none score results v e h k = k
  add_result-IsFound id (some doc) score results v e h k =
      let own : id ≡ doc.id = sym (v.own_id id doc (sym e)) in
      (
        (
          subst (λ i. document i t ≡ some doc) own (sym e),
          subst (λ i. is_match t tokens i ≡ true) own h,
        ),
        k,
      )

  results_of-IsFound :
      (accum : Map ℕ D)
      → IsLinked t
      → Scores reals (λ id. is_match t tokens id ≡ true) accum
      → All IsFound (results_of reals t accum)
  unfolding results_of
  results_of-IsFound [] v h = tt
  results_of-IsFound ((id, score) ∷ accum) v h =
      add_result-IsFound id (document id t) score (results_of reals t accum) v refl h.0
        (results_of-IsFound accum v h.1)

  insert_result-IsFound :
      (x : Scored D) (ys : List (Scored D))
      → IsFound x
      → All IsFound ys
      → All IsFound (insert_result reals x ys)
  unfolding insert_result
  insert_result-IsFound x [] h k = (h, tt)
  insert_result-IsFound x (y ∷ ys) h k = elim (Bool-cases (before reals x y)) [
    | inl e ↦ rw e (h, k)
    | inr e ↦ rw e (k.0, insert_result-IsFound x ys h k.1)
  ]

  sort_results-IsFound :
      (xs : List (Scored D)) → All IsFound xs → All IsFound (sort_results reals xs)
  unfolding sort_results
  sort_results-IsFound [] h = tt
  sort_results-IsFound (x ∷ xs) h =
      insert_result-IsFound x (sort_results reals xs) h.0 (sort_results-IsFound xs h.1)

  take-IsFound : (n : ℕ) (xs : List (Scored D)) → All IsFound xs → All IsFound (take n xs)
  take-IsFound zero xs h = tt
  take-IsFound (suc n) [] h = tt
  take-IsFound (suc n) (x ∷ xs) h = (h.0, take-IsFound n xs h.1)

  tokens-match :
      (terms : List Bytes)
      → All (IsToken tokens) terms
      → All
          (λ term.
            (id : ℕ) → posted_in id (postings_of term t) ≡ true → is_match t tokens id ≡ true)
          terms
  tokens-match [] h = tt
  tokens-match (term ∷ terms) h =
      (λ id k. posted_member t tokens term id h.0 k, tokens-match terms h.1)

  rank_terms-IsFound :
      (k1 b : D) (terms : List Bytes) (limit : ℕ)
      → IsLinked t
      → All (IsToken tokens) terms
      → All IsFound (rank_terms reals k1 b t terms limit)
  unfolding rank_terms
  rank_terms-IsFound k1 b terms limit v h =
      let total = reals.of_nat (document_count t) in
      let avgdl = average_doc_length reals t in
      let accum = add_terms reals k1 b total avgdl t terms [] in
      elim (Bool-cases (document_count t == 0 || reals.at_most avgdl (reals.of_nat 0))) [
        | inl e ↦ rw e tt
        | inr e ↦ rw e (
            take-IsFound limit (sort_results reals (results_of reals t accum)) (
              sort_results-IsFound (results_of reals t accum) (
                results_of-IsFound accum v (
                  add_terms-Scores reals _ k1 b total avgdl t terms [] (tokens-match terms h) tt))))
      ]

-- In an index whose documents stand under their own ids, every result of a query is a stored document,
-- and a token of the query has a posting of it.
pub rank-IsFound :
    {D : Type 0} (reals : Reals D) (k1 b : D) (t : InvertedIndex) (tokens : List Bytes) (limit : ℕ)
    → IsLinked t
    → All (IsFound reals t tokens) (rank reals k1 b t tokens limit)
unfolding rank
rank-IsFound reals k1 b t [] limit v = tt
rank-IsFound reals k1 b t (token ∷ tokens) limit v =
    rank_terms-IsFound reals t (token ∷ tokens) k1 b (query_terms (token ∷ tokens)) limit v
      (query_terms-IsToken (token ∷ tokens))
