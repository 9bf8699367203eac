-- ===== src/Engine/Found.antt =====
-- src/engine.cpp: a document that is added is found by a search.
use shadow_se.Base.{
  ℕ, ◌+◌, ◌^◌, ◌<◌, ◌≡◌, ap, ◌∙◌, true, false, Option, none, some, List, [], ◌∷◌, length, Bytes,
  arith,
}
use shadow_se.Base.Map.{find, bytes_key}
use shadow_se.Document.{Document}
use shadow_se.Tokenizer.{tokenize}
use shadow_se.Index.{
  or_nil, InvertedIndex, Posting, postings_of, document, add_document, term_freqs,
}
use shadow_se.Index.Agreement.{posted, freqs_of}
use shadow_se.Index.Store.{stamped, add_document-IsLinked, document-add_document}
use shadow_se.Index.Valid.{IsValid}
use shadow_se.Index.Weights.{posted-add_document}
use shadow_se.Crawler.{member}
use shadow_se.Ranking.{Reals, average_doc_length, rank}
use shadow_se.Ranking.Matches.{has_posting, posted_in, posted_member}
use shadow_se.Ranking.Complete.{has_result, rank-has_result}
use shadow_se.Engine.{Engine, search_documents, add_to_index}

has_posting-freqs_of :
    (id : ℕ) (ps : List Posting) (f : ℕ) (fs : List ℕ)
    → freqs_of id ps ≡ f ∷ fs
    → has_posting id ps ≡ true
unfolding freqs_of has_posting
has_posting-freqs_of id [] f fs h = absurd (cc)
has_posting-freqs_of id (p ∷ ps) f fs h = ground (arith, h, has_posting-freqs_of id ps f fs)

posted_in-or_nil :
    (id : ℕ) (found : Option (List Posting)) (f : ℕ) (fs : List ℕ)
    → freqs_of id (or_nil found) ≡ f ∷ fs
    → posted_in id found ≡ true
unfolding posted_in
posted_in-or_nil id none f fs h = unfold freqs_of in absurd (cc)
posted_in-or_nil id (some ps) f fs h = has_posting-freqs_of id ps f fs h

posted_in-posted :
    (id : ℕ) (term : Bytes) (t : InvertedIndex) (f : ℕ) (fs : List ℕ)
    → posted id term t.postings ≡ f ∷ fs
    → posted_in id (postings_of term t) ≡ true
unfolding postings_of
posted_in-posted id term t f fs h = posted_in-or_nil id (find term t.postings) f fs h

added_document :
    (doc : Document) (t : InvertedIndex)
    → document (add_document doc t).0 (add_document doc t).1
      ≡ some (stamped (add_document doc t).0 doc)
added_document doc t = document-add_document doc t (add_document doc t).0 ∙ ground arith

module _ {D : Type 0} (reals : Reals D) (k1 b : D) where
  -- In a valid index with room for an id, a document that is added is among the results of every query that has
  -- one of its terms, if the query has fewer results than its limit and the average length is above zero.
  rank-add_document :
      (doc : Document) (t : InvertedIndex) (term : Bytes) (f : ℕ) (tokens : List Bytes) (limit : ℕ)
      → IsValid t
      → t.next_id + 1 < 2 ^ 64
      → find term (term_freqs doc) ≡ some f
      → member term tokens ≡ true
      → reals.at_most (average_doc_length reals (add_document doc t).1) (reals.of_nat 0) ≡ false
      → length (rank reals k1 b (add_document doc t).1 tokens limit) < limit
      → has_result (add_document doc t).0 (rank reals k1 b (add_document doc t).1 tokens limit)
        ≡ true
  rank-add_document doc t term f tokens limit v room has asked long short =
      let id = (add_document doc t).0 in
      let after = (add_document doc t).1 in
      let once : posted id term after.postings ≡ f ∷ [] =
        posted-add_document doc t term v.agrees v.linked
        ∙ ap (λ (o : Option ℕ). elim o [ none ↦ [] | some g ↦ g ∷ [] ]) has in
      rank-has_result reals k1 b after id (stamped id doc) tokens limit
        (add_document-IsLinked doc t v.linked room) long (added_document doc t)
        (posted_member after tokens term id asked (posted_in-posted id term after f [] once)) short

  -- After a document is added to an engine whose index is valid and has room for an id, a search for a text
  -- one of whose tokens is a term of the document has a result with the id that the index gave it, if the
  -- average length is above zero and the results are fewer than the limit.
  pub search_documents-add_to_index :
      (doc : Document) (e : Engine) (term : Bytes) (f : ℕ) (query : Bytes) (limit : ℕ)
      → IsValid e.index
      → e.index.next_id + 1 < 2 ^ 64
      → find term (term_freqs doc) ≡ some f
      → member term (tokenize query) ≡ true
      → reals.at_most (average_doc_length reals (add_to_index doc e).index) (reals.of_nat 0) ≡ false
      → length (search_documents reals k1 b query limit (add_to_index doc e)) < limit
      → has_result
          (add_document doc e.index).0
          (search_documents reals k1 b query limit (add_to_index doc e))
        ≡ true
  unfolding search_documents add_to_index
  search_documents-add_to_index doc e term f query limit v room has asked long short =
      rank-add_document doc e.index term f (tokenize query) limit v room has asked long short
