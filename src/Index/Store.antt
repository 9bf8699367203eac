-- ===== src/Index/Store.antt =====
-- URLs and documents: each stored document is found under its URL, and ids are never reused.
use shadow_se.Base.{
  ℕ, ◌+◌, ◌^◌, ◌≤◌, ◌<◌, false, Option, none, some, [], ◌∷◌, ◌==◌, ==_iff, same_bytes,
  same_bytes_iff, if◌then◌else◌, Bytes, ◌≡◌, refl, ap, ◌∙◌, arith, Bool-cases, inl, inr,
}
use shadow_se.Base.Map.{Map, find, put, nat_key, bytes_key, find-put, find-erase}
use shadow_se.Document.{Document}
use shadow_se.Index.{
  Terms, InvertedIndex, empty, unindex, assign_id, push_term, push_terms, store_document,
  add_document, remove_found, remove_document, term_freqs, document,
}

-- What a document is when it is stored under `id`.
abbrev pub stamped : ℕ → Document → Document
stamped id doc = record doc { id = id }

-- The three maps and the counter agree.
pub record Linked (urls : Map Bytes ℕ) (docs : Map ℕ Document) (terms : Map ℕ Terms) (next : ℕ)
    : Type 0 where
  pub url_known :
      (u : Bytes) (id : ℕ)
      → find u urls ≡ some id
      → (d : Document) × (find id docs ≡ some d) × (d.url ≡ u)
  pub doc_known : (id : ℕ) (d : Document) → find id docs ≡ some d → find d.url urls ≡ some id
  pub below : (id : ℕ) (d : Document) → find id docs ≡ some d → id < next
  pub own_id : (id : ℕ) (d : Document) → find id docs ≡ some d → d.id ≡ id
  pub clean : (id : ℕ) → find id docs ≡ none → find id terms ≡ none

abbrev pub IsLinked : InvertedIndex → Type 0
IsLinked t = Linked t.url_to_id t.docs t.doc_terms t.next_id

-- A document comes in under `id`, which is the one that its URL had or is new.
module _ {urls : Map Bytes ℕ} {docs : Map ℕ Document} {terms : Map ℕ Terms} {next : ℕ}
    (urls' : Map Bytes ℕ) (docs' : Map ℕ Document) (terms' : Map ℕ Terms) (next' : ℕ)
    (v : Linked urls docs terms next) (id : ℕ) (doc : Document)
    (in_docs : (i : ℕ) → find i docs' ≡ (if id == i then some (stamped id doc) else find i docs))
    (in_urls : (u : Bytes) → find u urls' ≡ (if same_bytes doc.url u then some id else find u urls))
    (in_terms : (i : ℕ) → (id == i) ≡ false → find i terms' ≡ find i terms)
    (old : (d : Document) → find id docs ≡ some d → d.url ≡ doc.url)
    (owner : (i : ℕ) → find doc.url urls ≡ some i → i ≡ id) (grows : next ≤ next')
    (known : id < next') where
  url_kept :
      (u : Bytes) (i : ℕ)
      → find u urls' ≡ some i
      → (d : Document) × (find i docs' ≡ some d) × (d.url ≡ u)
  url_kept u i h = elim (Bool-cases (same_bytes doc.url u)) [
    | inl same ↦ (
      stamped id doc,
      ground (arith, in_docs i, in_urls u, ==_iff id i),
      ground (arith, same_bytes_iff doc.url u),
    )
    | inr other ↦
        let (d, at, url) = v.url_known u i (ground (arith, in_urls u)) in
        (d, ground (arith, in_docs i, ==_iff id i, old d, same_bytes_iff doc.url u), url)
  ]

  doc_kept : (i : ℕ) (d : Document) → find i docs' ≡ some d → find d.url urls' ≡ some i
  doc_kept i d h = ground (
    arith,
    in_docs i,
    in_urls d.url,
    ==_iff id i,
    v.doc_known i d,
    owner i,
    same_bytes_iff doc.url d.url,
  )

  insert-Linked : Linked urls' docs' terms' next'
  insert-Linked = record {
    url_known = url_kept;
    doc_known = doc_kept;
    below = λ i d h. ground (arith, in_docs i, ==_iff id i, v.below i d);
    own_id = λ i d h. ground (arith, in_docs i, ==_iff id i, v.own_id i d);
    clean = λ i h. ground (arith, in_docs i, in_terms i, v.clean i);
  }

module _ (id : ℕ) where
  pub push_terms_frame :
      (terms : Terms) (t : InvertedIndex)
      → ((push_terms id terms t).docs ≡ t.docs)
        × ((push_terms id terms t).url_to_id ≡ t.url_to_id)
        × ((push_terms id terms t).next_id ≡ t.next_id)
        × ((push_terms id terms t).doc_lengths ≡ t.doc_lengths)
  unfolding push_terms push_term
  push_terms_frame [] t = (refl, refl, refl, refl)
  push_terms_frame ((term, freq) ∷ terms) t = push_terms_frame terms (push_term id term freq t)

  -- Only the document's own record of terms grows.
  find-push_terms :
      (terms : Terms) (t : InvertedIndex) (i : ℕ)
      → (id == i) ≡ false
      → find i (push_terms id terms t).doc_terms ≡ find i t.doc_terms
  unfolding push_terms push_term
  find-push_terms [] t i ne = refl
  find-push_terms ((term, freq) ∷ terms) t i ne =
      find-push_terms terms (push_term id term freq t) i ne ∙ rw find-put (rw ne)

module _ (doc : Document) (t : InvertedIndex) (v : IsLinked t) where
  replaced-IsLinked :
      (id : ℕ)
      → find doc.url t.url_to_id ≡ some id
      → IsLinked (store_document id doc (unindex id t))
  unfolding store_document unindex
  replaced-IsLinked id e =
      let f = push_terms_frame id (term_freqs doc) (unindex id t) in
      let (d, at, same) = v.url_known doc.url id e in
      insert-Linked _ _ _ _ v id doc (λ i. rw (f.0, find-put) refl)
        (λ u. rw f.1 (ground (arith, same_bytes_iff doc.url u)))
        (λ i ne. find-push_terms id (term_freqs doc) (unindex id t) i ne ∙ rw find-erase (rw ne))
        (λ x h. ground arith) (λ i h. ground arith) (rw f.2 (omega arith))
        (rw f.2 (v.below id d at))

  fresh-IsLinked :
      find doc.url t.url_to_id ≡ none
      → t.next_id + 1 < 2 ^ 64
      → IsLinked (store_document t.next_id doc (assign_id doc.url none t).1)
  unfolding store_document assign_id
  fresh-IsLinked e room =
      let id = t.next_id in
      let t' = (assign_id doc.url none t).1 in
      let f = push_terms_frame id (term_freqs doc) t' in
      insert-Linked _ _ _ _ v id doc (λ i. rw (f.0, find-put) refl) (λ u. rw (f.1, find-put) refl)
        (λ i ne. find-push_terms id (term_freqs doc) t' i ne)
        (λ x h. absurd (omega (arith, v.below id x h))) (λ i h. absurd (cc)) (rw f.2 (omega arith))
        (rw f.2 (omega arith))

  -- Removing a stored document.
  removed-IsLinked :
      (id : ℕ) (d : Document) → find id t.docs ≡ some d → IsLinked (remove_found id (some d) t)
  unfolding remove_found unindex
  removed-IsLinked id d e = record {
    url_known = λ u i h.
        let known : find u t.url_to_id ≡ some i = ground (arith, find-erase u d.url t.url_to_id) in
        let (x, at, url) = v.url_known u i known in
        (
          x,
          find-erase i id t.docs
              ∙ ground (arith, ==_iff id i, find-erase u d.url t.url_to_id, same_bytes_iff d.url u),
          url,
        );
    doc_known = λ i x h. ground (
      arith,
      find-erase i id t.docs,
      find-erase x.url d.url t.url_to_id,
      ==_iff id i,
      v.doc_known i x,
      v.doc_known id d,
      same_bytes_iff d.url x.url,
    );
    below = λ i x h. v.below i x (ground (arith, find-erase i id t.docs));
    own_id = λ i x h. v.own_id i x (ground (arith, find-erase i id t.docs));
    clean = λ i h. ground (arith, find-erase i id t.doc_terms, find-erase i id t.docs, v.clean i);
  }

add_with-IsLinked :
    (doc : Document) (t : InvertedIndex) (o : Option ℕ)
    → IsLinked t
    → find doc.url t.url_to_id ≡ o
    → t.next_id + 1 < 2 ^ 64
    → IsLinked (store_document (assign_id doc.url o t).0 doc (assign_id doc.url o t).1)
unfolding assign_id
add_with-IsLinked doc t none v e room = fresh-IsLinked doc t v e room
add_with-IsLinked doc t (some id) v e room = replaced-IsLinked doc t v id e

-- While ids last, adding a document keeps URLs, documents and ids linked.
pub add_document-IsLinked :
    (doc : Document) (t : InvertedIndex)
    → IsLinked t
    → t.next_id + 1 < 2 ^ 64
    → IsLinked (add_document doc t).1
unfolding add_document
add_document-IsLinked doc t v room = add_with-IsLinked doc t (find doc.url t.url_to_id) v refl room

remove_with-IsLinked :
    (id : ℕ) (t : InvertedIndex) (o : Option Document)
    → IsLinked t
    → find id t.docs ≡ o
    → IsLinked (remove_found id o t)
remove_with-IsLinked id t none v e = unfold remove_found in v
remove_with-IsLinked id t (some d) v e = removed-IsLinked d t v id d e

-- Removing any id, known or not, keeps them linked.
pub remove_document-IsLinked :
    (id : ℕ) (t : InvertedIndex) → IsLinked t → IsLinked (remove_document id t)
unfolding remove_document
remove_document-IsLinked id t v = remove_with-IsLinked id t (find id t.docs) v refl

pub empty-IsLinked : IsLinked empty
unfolding find
empty-IsLinked = record {
  url_known = λ u id h. absurd (cc);
  doc_known = λ id d h. absurd (cc);
  below = λ id d h. absurd (cc);
  own_id = λ id d h. absurd (cc);
  clean = λ id h. refl;
}

docs-store_document :
    (id : ℕ) (doc : Document) (t : InvertedIndex)
    → (store_document id doc t).docs ≡ put id (stamped id doc) t.docs
unfolding store_document
docs-store_document id doc t =
    ap (put id (stamped id doc)) (push_terms_frame id (term_freqs doc) t).0

docs-assign_id :
    (url : Bytes) (o : Option ℕ) (t : InvertedIndex) → (assign_id url o t).1.docs ≡ t.docs
unfolding assign_id
docs-assign_id url none t = refl
docs-assign_id url (some id) t = refl

-- After an add the returned id has the document, with that id set in it, and every other id has
-- the document that it had.
pub document-add_document :
    (doc : Document) (t : InvertedIndex) (other : ℕ)
    → document other (add_document doc t).1 ≡ (
        if (add_document doc t).0 == other
        then some (stamped (add_document doc t).0 doc)
        else document other t)
unfolding document add_document
document-add_document doc t other =
    let o = find doc.url t.url_to_id in rw (docs-store_document, docs-assign_id, find-put) refl

-- If URLs, documents and ids are linked, adding a document under the URL of a stored one gives
-- the id of the stored one.
pub add_document_again :
    (doc : Document) (t : InvertedIndex) (id : ℕ) (d : Document)
    → IsLinked t
    → document id t ≡ some d
    → d.url ≡ doc.url
    → (add_document doc t).0 ≡ id
unfolding document add_document assign_id
add_document_again doc t id d v at same = ground (arith, v.doc_known id d)
