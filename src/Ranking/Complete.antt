-- ===== src/Ranking/Complete.antt =====
-- src/bm25.cpp: no stored document that matches is left out, but for the limit.
use shadow_se.Base.{
  ℕ, zero, suc, ◌<◌, ◌≡◌, refl, ap, ◌∙◌, inl, inr, Bool, true, false, Bool-cases, ◌||◌, Option,
  none, some, List, [], ◌∷◌, ◌==◌, ==_iff, length, take, Bytes, same_bytes, same_bytes_iff, subst,
  arith,
}
use shadow_se.Base.Map.{Map, nat_key, find, put}
use shadow_se.Document.{Document}
use shadow_se.Index.{InvertedIndex, Posting, postings_of, document, document_count}
use shadow_se.Index.Store.{IsLinked}
use shadow_se.Ranking.{
  Reals, Scored, insert_term, sort_terms, unique_from, unique_terms, query_terms,
  average_doc_length, add_posting, add_postings, add_found, add_terms, add_result, results_of,
  before, insert_result, sort_results, rank_terms, rank,
}
use shadow_se.Ranking.Matches.{has_posting, posted_in, is_match}

-- The terms of the query match what its tokens match.
module _ (t : InvertedIndex) (id : ℕ) where
  insert_term-is_match :
      (term : Bytes) (us : List Bytes)
      → is_match t (term ∷ us) id ≡ true
      → is_match t (insert_term term us) id ≡ true
  unfolding insert_term is_match
  insert_term-is_match term [] h = h
  insert_term-is_match term (u ∷ us) h = ground (arith, h, insert_term-is_match term us)

  sort_terms-is_match :
      (ts : List Bytes) → is_match t ts id ≡ true → is_match t (sort_terms ts) id ≡ true
  unfolding sort_terms is_match
  sort_terms-is_match [] h = h
  sort_terms-is_match (term ∷ ts) h =
      insert_term-is_match term (sort_terms ts) (ground (arith, h, sort_terms-is_match ts))

  unique_from-is_match :
      (last : Bytes) (us : List Bytes)
      → is_match t (last ∷ us) id ≡ true
      → is_match t (last ∷ unique_from last us) id ≡ true
  unfolding unique_from is_match
  unique_from-is_match last [] h = h
  unique_from-is_match last (u ∷ us) h = elim (Bool-cases (same_bytes last u)) [
    | inl e ↦
        let same = (same_bytes_iff last u).0 e in
        rw e (
          unique_from-is_match last us
            (ground (arith, h, ap (λ (v : Bytes). posted_in id (postings_of v t)) same)))
    | inr e ↦ rw e (ground (arith, h, unique_from-is_match u us))
  ]

  query_terms-is_match :
      (tokens : List Bytes)
      → is_match t tokens id ≡ true
      → is_match t (query_terms tokens) id ≡ true
  unfolding query_terms
  query_terms-is_match tokens h =
      unique_terms-is_match (sort_terms tokens) (sort_terms-is_match tokens h)
    where
      unique_terms-is_match :
          (ts : List Bytes) → is_match t ts id ≡ true → is_match t (unique_terms ts) id ≡ true
      unique_terms-is_match [] h = h
      unique_terms-is_match (term ∷ ts) h = unfold unique_terms in unique_from-is_match term ts h

-- The document has a score, and a result.
unfoldable pub has_score : {D : Type 0} → ℕ → Map ℕ D → Bool
has_score id [] = false
has_score id ((j, score) ∷ m) = j == id || has_score id m

unfoldable pub has_result : {D : Type 0} → ℕ → List (Scored D) → Bool
has_result id [] = false
has_result id (r ∷ rs) = r.doc.id == id || has_result id rs

module _ {D : Type 0} (reals : Reals D) (id : ℕ) where
  put-has_score_self :
      (j : ℕ) (score : D) (m : Map ℕ D) → j == id ≡ true → has_score id (put j score m) ≡ true
  unfolding has_score put
  put-has_score_self j score [] h = ground (arith, h)
  put-has_score_self j score ((i, w) ∷ m) h = ground (arith, h, put-has_score_self j score m h)

  put-has_score :
      (j : ℕ) (score : D) (m : Map ℕ D)
      → has_score id m ≡ true
      → has_score id (put j score m) ≡ true
  unfolding has_score put
  put-has_score j score [] h = absurd (cc)
  put-has_score j score ((i, w) ∷ m) h = ground (arith, h, put-has_score j score m)

  add_postings-has_score :
      (k1 b avgdl weight : D) (t : InvertedIndex) (ps : List Posting) (accum : Map ℕ D)
      → has_score id accum ≡ true
      → has_score id (add_postings reals k1 b avgdl weight t ps accum) ≡ true
  unfolding add_postings add_posting
  add_postings-has_score k1 b avgdl weight t [] accum h = h
  add_postings-has_score k1 b avgdl weight t (p ∷ ps) accum h =
      add_postings-has_score k1 b avgdl weight t ps (add_posting reals k1 b avgdl weight t p accum)
        (put-has_score p.doc_id _ accum h)

  posted-has_score :
      (k1 b avgdl weight : D) (t : InvertedIndex) (ps : List Posting) (accum : Map ℕ D)
      → has_posting id ps ≡ true
      → has_score id (add_postings reals k1 b avgdl weight t ps accum) ≡ true
  unfolding add_postings add_posting has_posting
  posted-has_score k1 b avgdl weight t [] accum h = absurd (cc)
  posted-has_score k1 b avgdl weight t (p ∷ ps) accum h = elim (Bool-cases (p.doc_id == id)) [
    | inl e ↦
        add_postings-has_score k1 b avgdl weight t ps
          (add_posting reals k1 b avgdl weight t p accum) (put-has_score_self p.doc_id _ accum e)
    | inr e ↦
        posted-has_score k1 b avgdl weight t ps (add_posting reals k1 b avgdl weight t p accum)
          (ground (arith, h, e))
  ]

  add_found-has_score :
      (k1 b total avgdl : D) (t : InvertedIndex) (found : Option (List Posting)) (accum : Map ℕ D)
      → (has_score id accum ≡ true
          → has_score id (add_found reals k1 b total avgdl t found accum) ≡ true)
        × (posted_in id found ≡ true
            → has_score id (add_found reals k1 b total avgdl t found accum) ≡ true)
  unfolding add_found posted_in
  add_found-has_score k1 b total avgdl t none accum = (λ h. h, λ h. absurd (cc))
  add_found-has_score k1 b total avgdl t (some ps) accum = (
    λ h. add_postings-has_score k1 b avgdl _ t ps accum h,
    λ h. posted-has_score k1 b avgdl _ t ps accum h,
  )

  add_terms-has_score :
      (k1 b total avgdl : D) (t : InvertedIndex) (terms : List Bytes) (accum : Map ℕ D)
      → has_score id accum || is_match t terms id ≡ true
      → has_score id (add_terms reals k1 b total avgdl t terms accum) ≡ true
  unfolding add_terms is_match
  add_terms-has_score k1 b total avgdl t [] accum h = ground (arith, h)
  add_terms-has_score k1 b total avgdl t (term ∷ terms) accum h =
      let (kept, met) = add_found-has_score k1 b total avgdl t (postings_of term t) accum in
      add_terms-has_score k1 b total avgdl t terms
        (add_found reals k1 b total avgdl t (postings_of term t) accum)
        (ground (arith, h, kept, met))

  add_result-has_result :
      (found : Option Document) (score : D) (rs : List (Scored D))
      → has_result id rs ≡ true
      → has_result id (add_result reals found score rs) ≡ true
  unfolding add_result has_result
  add_result-has_result none score rs h = h
  add_result-has_result (some doc) score rs h = ground (arith, h)

  added_result :
      (found : Option Document) (doc : Document) (score : D) (rs : List (Scored D))
      → found ≡ some doc
      → doc.id ≡ id
      → has_result id (add_result reals found score rs) ≡ true
  unfolding add_result has_result
  added_result none doc score rs e h = absurd (cc)
  added_result (some d) doc score rs e h = ground (arith, e, h)

  results_of-has_result :
      (t : InvertedIndex) (doc : Document) (accum : Map ℕ D)
      → document id t ≡ some doc
      → doc.id ≡ id
      → has_score id accum ≡ true
      → has_result id (results_of reals t accum) ≡ true
  unfolding results_of has_score
  results_of-has_result t doc [] e own h = absurd (cc)
  results_of-has_result t doc ((j, score) ∷ accum) e own h = elim (Bool-cases (j == id)) [
    | inl here ↦
        added_result (document j t) doc score (results_of reals t accum)
          (ap (λ (i : ℕ). document i t) ((==_iff j id).0 here) ∙ e) own
    | inr other ↦
        add_result-has_result (document j t) score (results_of reals t accum)
          (results_of-has_result t doc accum e own (ground (arith, h, other)))
  ]

  insert_result-has_result :
      (x : Scored D) (ys : List (Scored D))
      → has_result id (x ∷ ys) ≡ true
      → has_result id (insert_result reals x ys) ≡ true
  unfolding insert_result has_result
  insert_result-has_result x [] h = h
  insert_result-has_result x (y ∷ ys) h = elim (Bool-cases (before reals x y)) [
    | inl e ↦ rw e h
    | inr e ↦ rw e (ground (arith, h, insert_result-has_result x ys))
  ]

  sort_results-has_result :
      (xs : List (Scored D))
      → has_result id xs ≡ true
      → has_result id (sort_results reals xs) ≡ true
  unfolding sort_results has_result
  sort_results-has_result [] h = h
  sort_results-has_result (x ∷ xs) h =
      insert_result-has_result x (sort_results reals xs)
        (ground (arith, h, sort_results-has_result xs))

found_nonempty :
    (id : ℕ) (docs : Map ℕ Document) {doc : Document}
    → find id docs ≡ some doc
    → (length docs == 0) ≡ false
unfolding find
found_nonempty id [] e = absurd (cc)
found_nonempty id ((j, d) ∷ docs) e = ground arith

stored_nonzero :
    (id : ℕ) (t : InvertedIndex) {doc : Document}
    → document id t ≡ some doc
    → (document_count t == 0) ≡ false
unfolding document document_count
stored_nonzero id t e = found_nonempty id t.docs e

neither : (p q : Bool) → p ≡ false → q ≡ false → (p || q) ≡ false
neither p q h k = ground (arith, h, k)

take_whole : {A : Type 0} (n : ℕ) (xs : List A) → length (take n xs) < n → take n xs ≡ xs
take_whole zero xs h = absurd (omega arith)
take_whole (suc n) [] h = refl
take_whole (suc n) (x ∷ xs) h = ap (λ ys. x ∷ ys) (take_whole n xs (omega arith))

module _ {D : Type 0} (reals : Reals D) (k1 b : D) (t : InvertedIndex) (id : ℕ)
    (doc : Document) where
  -- The result is there if the limit cuts nothing off.
  cut-has_result :
      (ranked sorted : List (Scored D)) (limit : ℕ)
      → ranked ≡ take limit sorted
      → length ranked < limit
      → has_result id sorted ≡ true
      → has_result id ranked ≡ true
  cut-has_result ranked sorted limit e short h =
      let whole = take_whole limit sorted (subst (λ rs. length rs < limit) e short) in
      ap (has_result id) (e ∙ whole) ∙ h

  rank_terms-has_result :
      (terms : List Bytes) (limit : ℕ)
      → document id t ≡ some doc
      → doc.id ≡ id
      → document_count t == 0 || reals.at_most (average_doc_length reals t) (reals.of_nat 0) ≡ false
      → is_match t terms id ≡ true
      → length (rank_terms reals k1 b t terms limit) < limit
      → has_result id (rank_terms reals k1 b t terms limit) ≡ true
  unfolding rank_terms has_score is_match
  rank_terms-has_result terms limit e own long h short =
      let total = reals.of_nat (document_count t) in
      let avgdl = average_doc_length reals t in
      let accum = add_terms reals k1 b total avgdl t terms [] in
      let sorted = sort_results reals (results_of reals t accum) in
      cut-has_result (rank_terms reals k1 b t terms limit) sorted limit (rw long refl) short (
        sort_results-has_result reals id (results_of reals t accum) (
          results_of-has_result reals id t doc accum e own
            (add_terms-has_score reals id k1 b total avgdl t terms [] h)))

  -- In an index whose documents stand under their own ids and whose average length is above zero, a query
  -- with fewer results than its limit has left out nothing: every stored document of which a token of the query
  -- has a posting is among the results.
  pub rank-has_result :
      (tokens : List Bytes) (limit : ℕ)
      → IsLinked t
      → reals.at_most (average_doc_length reals t) (reals.of_nat 0) ≡ false
      → document id t ≡ some doc
      → is_match t tokens id ≡ true
      → length (rank reals k1 b t tokens limit) < limit
      → has_result id (rank reals k1 b t tokens limit) ≡ true
  unfolding rank
  rank-has_result [] limit v long e h short = absurd (unfold is_match in cc (h))
  rank-has_result (token ∷ tokens) limit v long e h short =
      rank_terms-has_result (query_terms (token ∷ tokens)) limit e
        (unfold document in v.own_id id doc e)
        (neither (document_count t == 0) _ (stored_nonzero id t e) long)
        (query_terms-is_match t id (token ∷ tokens) h) short
