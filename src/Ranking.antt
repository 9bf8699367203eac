-- ===== src/Ranking.antt =====
-- src/bm25.cpp. A score is an abstract number with the operations that the code calls on `double`. The map
-- of scores is in order of first occurrence; the sort that follows does not depend on it.
pub mod Order
pub mod Matches
pub mod Complete
use shadow_se.Base.{
  ℕ, zero, suc, Bool, true, false, not, ◌||◌, Option, none, some, List, [], ◌∷◌, ltb, ◌==◌,
  if◌then◌else◌, take, Bytes, same_bytes,
}
use shadow_se.Base.Map.{Map, nat_key, find, put}
use shadow_se.Document.{Document}
use shadow_se.Index.{InvertedIndex, Posting, postings_of, document, document_count, doc_length}

pub record Reals (D : Type 0) : Type 0 where
  pub of_nat : ℕ → D
  pub half : D
  pub plus : D → D → D
  pub minus : D → D → D
  pub times : D → D → D
  pub over : D → D → D
  pub log : D → D
  pub greater : D → D → Bool
  pub at_most : D → D → Bool
  pub same : D → D → Bool

pub record Scored (D : Type 0) : Type 0 where
  pub doc : Document
  pub score : D

-- `operator<` of strings.
unfoldable pub text_before : Bytes → Bytes → Bool
text_before [] [] = false
text_before [] (y ∷ t) = true
text_before (x ∷ s) [] = false
text_before (x ∷ s) (y ∷ t) = if x == y then text_before s t else ltb x y

unfoldable pub insert_term : Bytes → List Bytes → List Bytes
insert_term t [] = t ∷ []
insert_term t (u ∷ us) =
    let rest = insert_term t us in if text_before t u then t ∷ u ∷ us else u ∷ rest

unfoldable pub sort_terms : List Bytes → List Bytes
unfolding insert_term
sort_terms [] = []
sort_terms (t ∷ ts) = insert_term t (sort_terms ts)

-- `std::unique`, with the last term that was kept.
unfoldable pub unique_from : Bytes → List Bytes → List Bytes
unique_from t [] = []
unique_from t (u ∷ us) = if same_bytes t u then unique_from t us else u ∷ unique_from u us

unfoldable pub unique_terms : List Bytes → List Bytes
unfolding unique_from
unique_terms [] = []
unique_terms (t ∷ ts) = t ∷ unique_from t ts

unfoldable pub query_terms : List Bytes → List Bytes
unfolding sort_terms unique_terms
query_terms tokens = unique_terms (sort_terms tokens)

module _ {D : Type 0} (reals : Reals D) where
  unfoldable pub average_doc_length : InvertedIndex → D
  average_doc_length t =
      if document_count t == 0
      then reals.of_nat 0
      else reals.over (reals.of_nat t.total_terms) (reals.of_nat (document_count t))

  unfoldable pub idf : D → D → D
  idf total n = reals.log (
      reals.plus (reals.of_nat 1)
        (reals.over (reals.plus (reals.minus total n) reals.half) (reals.plus n reals.half)))

  -- The part of the term frequency, for a document's length and the average.
  unfoldable pub saturation : D → D → ℕ → D → D → D
  saturation k1 b freq dl avgdl =
      reals.over (reals.times (reals.of_nat freq) (reals.plus k1 (reals.of_nat 1))) (
        reals.plus (reals.of_nat freq) (
          reals.times k1
            (reals.plus (reals.minus (reals.of_nat 1) b) (reals.over (reals.times b dl) avgdl))))

  abbrev or_nothing : Option D → D
  or_nothing none = reals.of_nat 0
  or_nothing (some score) = score

  -- One round of the loop over the postings: `accum[p.docId] += weight * tf`.
  unfoldable pub add_posting : D → D → D → D → InvertedIndex → Posting → Map ℕ D → Map ℕ D
  unfolding saturation
  add_posting k1 b avgdl weight t p accum =
      let tf = saturation k1 b p.term_freq (reals.of_nat (doc_length p.doc_id t)) avgdl in
      put p.doc_id (reals.plus (or_nothing (find p.doc_id accum)) (reals.times weight tf)) accum

  unfoldable pub add_postings : D → D → D → D → InvertedIndex → List Posting → Map ℕ D → Map ℕ D
  unfolding add_posting
  add_postings k1 b avgdl weight t [] accum = accum
  add_postings k1 b avgdl weight t (p ∷ ps) accum =
      add_postings k1 b avgdl weight t ps (add_posting k1 b avgdl weight t p accum)

  unfoldable pub count_postings : List Posting → ℕ
  count_postings [] = 0
  count_postings (p ∷ ps) = suc (count_postings ps)

  unfoldable pub add_found :
      D → D → D → D → InvertedIndex → Option (List Posting) → Map ℕ D → Map ℕ D
  unfolding add_postings idf count_postings
  add_found k1 b total avgdl t none accum = accum
  add_found k1 b total avgdl t (some ps) accum =
      add_postings k1 b avgdl (idf total (reals.of_nat (count_postings ps))) t ps accum

  unfoldable pub add_terms : D → D → D → D → InvertedIndex → List Bytes → Map ℕ D → Map ℕ D
  unfolding add_found
  add_terms k1 b total avgdl t [] accum = accum
  add_terms k1 b total avgdl t (term ∷ terms) accum =
      add_terms k1 b total avgdl t terms (add_found k1 b total avgdl t (postings_of term t) accum)

  unfoldable pub add_result : Option Document → D → List (Scored D) → List (Scored D)
  add_result none score results = results
  add_result (some doc) score results = record { doc = doc; score = score } ∷ results

  unfoldable pub results_of : InvertedIndex → Map ℕ D → List (Scored D)
  unfolding add_result
  results_of t [] = []
  results_of t ((id, score) ∷ accum) = add_result (document id t) score (results_of t accum)

  -- The comparison of the sort.
  unfoldable pub before : Scored D → Scored D → Bool
  before x y =
      if not (reals.same x.score y.score)
      then reals.greater x.score y.score
      else ltb x.doc.id y.doc.id

  unfoldable pub insert_result : Scored D → List (Scored D) → List (Scored D)
  unfolding before
  insert_result x [] = x ∷ []
  insert_result x (y ∷ ys) =
      let rest = insert_result x ys in if before x y then x ∷ y ∷ ys else y ∷ rest

  unfoldable pub sort_results : List (Scored D) → List (Scored D)
  unfolding insert_result
  sort_results [] = []
  sort_results (x ∷ xs) = insert_result x (sort_results xs)

  unfoldable pub rank_terms : D → D → InvertedIndex → List Bytes → ℕ → List (Scored D)
  unfolding average_doc_length add_terms results_of sort_results
  rank_terms k1 b t terms limit =
      let total = reals.of_nat (document_count t) in
      let avgdl = average_doc_length t in
      if document_count t == 0 || reals.at_most avgdl (reals.of_nat 0)
      then []
      else take limit (sort_results (results_of t (add_terms k1 b total avgdl t terms [])))

  unfoldable pub rank : D → D → InvertedIndex → List Bytes → ℕ → List (Scored D)
  unfolding rank_terms query_terms
  rank k1 b t [] limit = []
  rank k1 b t (token ∷ tokens) limit = rank_terms k1 b t (query_terms (token ∷ tokens)) limit
