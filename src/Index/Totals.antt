-- ===== src/Index/Totals.antt =====
-- `totalTerms_` is the sum of the document lengths, on 64 bits, after every operation.
use shadow_se.Base.{
  ℕ, ◌+◌, ◌%◌, ◌^◌, ◌<◌, Option, none, some, [], ◌∷◌, ==_iff, Bytes, ◌≡◌, refl, ap, ◌∙◌, arith,
}
use shadow_se.Base.Map.{
  Map, find, put, erase, nat_key, bytes_key, find-put, find-erase, IsUnique, put-IsUnique,
  erase-IsUnique,
}
use shadow_se.Document.{Document}
use shadow_se.Index.{
  Terms, InvertedIndex, empty, or_zero, term_freqs, unindex, push_term, push_terms, sum_lengths,
  assign_id, store_document, add_document, remove_found, remove_document,
}
use shadow_se.Index.Store.{IsLinked}

-- The sum over a map of lengths.
unfoldable pub sum_of : Map ℕ ℕ → ℕ
sum_of [] = 0
sum_of ((id, n) ∷ m) = n + sum_of m

sum_of-put :
    (id n : ℕ) (m : Map ℕ ℕ) → IsUnique m → sum_of (put id n m) + or_zero (find id m) ≡ sum_of m + n
unfolding sum_of put find
sum_of-put id n [] u = omega arith
sum_of-put id n ((i, k) ∷ m) u = ground (arith, sum_of-put id n m u.1)

sum_of-erase :
    (id : ℕ) (m : Map ℕ ℕ) → IsUnique m → sum_of (erase id m) + or_zero (find id m) ≡ sum_of m
unfolding sum_of erase find
sum_of-erase id [] u = omega arith
sum_of-erase id ((i, k) ∷ m) u = ground (arith, sum_of-erase id m u.1, u.0, ==_iff i id)

pub record IsTotalled (t : InvertedIndex) : Type 0 where
  pub unique : IsUnique t.doc_lengths
  pub small : (id : ℕ) → or_zero (find id t.doc_lengths) < 2 ^ 64
  pub total : t.total_terms ≡ sum_of t.doc_lengths % 2 ^ 64
  pub clean : (id : ℕ) → find id t.docs ≡ none → find id t.doc_lengths ≡ none

unindex-IsTotalled : (id : ℕ) (t : InvertedIndex) → IsTotalled t → IsTotalled (unindex id t)
unfolding unindex
unindex-IsTotalled id t v = record {
  unique = erase-IsUnique id t.doc_lengths v.unique;
  small = λ i. rw find-erase (ground (arith, v.small i));
  total = omega (arith, v.total, v.small id, sum_of-erase id t.doc_lengths v.unique);
  clean = λ i h. ground (arith, v.clean i, find-erase i id t.doc_lengths);
}

sum_of_terms : Terms → ℕ
sum_of_terms [] = 0
sum_of_terms ((term, f) ∷ terms) = f + sum_of_terms terms

total-push_terms :
    (id : ℕ) (terms : Terms) (t : InvertedIndex)
    → t.total_terms < 2 ^ 64
    → (push_terms id terms t).total_terms ≡ (t.total_terms + sum_of_terms terms) % 2 ^ 64
unfolding push_terms push_term sum_of_terms
total-push_terms id [] t h = omega arith
total-push_terms id ((term, f) ∷ terms) t h =
    total-push_terms id terms (push_term id term f t) (omega arith) ∙ omega arith

sum_lengths_lem :
    (acc : ℕ) (terms : Terms)
    → acc < 2 ^ 64
    → sum_lengths acc terms ≡ (acc + sum_of_terms terms) % 2 ^ 64
unfolding sum_lengths sum_of_terms
sum_lengths_lem acc [] h = omega arith
sum_lengths_lem acc ((term, f) ∷ terms) h =
    sum_lengths_lem ((acc + f) % 2 ^ 64) terms (omega arith) ∙ omega arith

docs-push_terms :
    (id : ℕ) (terms : Terms) (t : InvertedIndex) → (push_terms id terms t).docs ≡ t.docs
unfolding push_terms push_term
docs-push_terms id [] t = refl
docs-push_terms id ((term, f) ∷ terms) t = docs-push_terms id terms (push_term id term f t)

lengths-push_terms :
    (id : ℕ) (terms : Terms) (t : InvertedIndex)
    → (push_terms id terms t).doc_lengths ≡ t.doc_lengths
unfolding push_terms push_term
lengths-push_terms id [] t = refl
lengths-push_terms id ((term, f) ∷ terms) t = lengths-push_terms id terms (push_term id term f t)

store_document-IsTotalled :
    (id : ℕ) (doc : Document) (t : InvertedIndex)
    → IsTotalled t
    → find id t.doc_lengths ≡ none
    → IsTotalled (store_document id doc t)
unfolding store_document
store_document-IsTotalled id doc t v new = record {
  unique = rw lengths-push_terms (put-IsUnique id _ t.doc_lengths v.unique);
  small = λ i.
      rw (lengths-push_terms, find-put)
        (ground (arith, v.small i, sum_lengths_lem 0 (term_freqs doc)));
  total =
      rw (lengths-push_terms, new_total)
        (omega (
          arith,
          v.total,
          sum_lengths_lem 0 (term_freqs doc),
          sum_of-put id (sum_lengths 0 (term_freqs doc)) t.doc_lengths v.unique,
          ap or_zero new,
        ));
  clean = λ i h. rw lengths-push_terms (
      ground (
        arith,
        v.clean i,
        docs-push_terms id (term_freqs doc) t,
        find-put i id (record doc { id = id }) t.docs,
        find-put i id (sum_lengths 0 (term_freqs doc)) t.doc_lengths,
      ));
}
  where
    new_total :
        (push_terms id (term_freqs doc) t).total_terms
        ≡ (t.total_terms + sum_of_terms (term_freqs doc)) % 2 ^ 64
    new_total = total-push_terms id (term_freqs doc) t (omega (arith, v.total))

assign_id-IsTotalled :
    (url : Bytes) (o : Option ℕ) (t : InvertedIndex)
    → IsTotalled t
    → IsTotalled (assign_id url o t).1
unfolding assign_id
assign_id-IsTotalled url none t v = record {
  unique = v.unique;
  small = v.small;
  total = v.total;
  clean = v.clean;
}
assign_id-IsTotalled url (some id) t v = unindex-IsTotalled id t v

assign_id-no_length :
    (url : Bytes) (o : Option ℕ) (t : InvertedIndex)
    → IsLinked t
    → IsTotalled t
    → find (assign_id url o t).0 (assign_id url o t).1.doc_lengths ≡ none
unfolding assign_id unindex
assign_id-no_length url (some id) t l v =
    find-erase id id t.doc_lengths ∙ ground (arith, ==_iff id id)
assign_id-no_length url none t l v = v.clean t.next_id (unstored (find t.next_id t.docs) refl)
  where
    unstored : (o : Option Document) → find t.next_id t.docs ≡ o → find t.next_id t.docs ≡ none
    unstored none e = e
    unstored (some d) e = absurd (omega (arith, l.below t.next_id d e))

-- Adding a document keeps the total equal to the sum of the lengths, on 64 bits.
pub add_document-IsTotalled :
    (doc : Document) (t : InvertedIndex)
    → IsLinked t
    → IsTotalled t
    → IsTotalled (add_document doc t).1
unfolding add_document
add_document-IsTotalled doc t l v =
    let o = find doc.url t.url_to_id in
    store_document-IsTotalled _ doc _ (assign_id-IsTotalled doc.url o t v)
      (assign_id-no_length doc.url o t l v)

remove_found-IsTotalled :
    (id : ℕ) (o : Option Document) (t : InvertedIndex)
    → IsTotalled t
    → IsTotalled (remove_found id o t)
unfolding remove_found
remove_found-IsTotalled id none t v = v
remove_found-IsTotalled id (some d) t v =
    let w = unindex-IsTotalled id t v in
    record {
      unique = w.unique;
      small = w.small;
      total = w.total;
      clean = λ i h.
          unfold unindex in
          ground (arith, v.clean i, find-erase i id t.docs, find-erase i id t.doc_lengths);
    }

-- So does removing one.
pub remove_document-IsTotalled :
    (id : ℕ) (t : InvertedIndex) → IsTotalled t → IsTotalled (remove_document id t)
unfolding remove_document
remove_document-IsTotalled id t v = remove_found-IsTotalled id (find id t.docs) t v

pub empty-IsTotalled : IsTotalled empty
unfolding find sum_of
empty-IsTotalled = record {
  unique = tt;
  small = λ id. omega arith;
  total = refl;
  clean = λ id h. refl;
}
