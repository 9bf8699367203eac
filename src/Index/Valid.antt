-- ===== src/Index/Valid.antt =====
-- The index as a whole: the three invariants together, and the operations on them.
use shadow_se.Base.{
  ℕ, ◌+◌, ◌-◌, ◌^◌, ◌≤◌, ◌<◌, Option, none, some, List, [], ◌∷◌, length, Bytes, ◌≡◌, refl, arith,
}
use shadow_se.Base.Map.{find, nat_key, bytes_key}
use shadow_se.Document.{Document}
use shadow_se.Index.{
  Terms, InvertedIndex, empty, unindex, push_term, push_terms, assign_id, store_document,
  add_document, remove_document, add_all, replace_all, term_freqs,
}
use shadow_se.Index.Agreement.{
  Agrees, add_document-Agrees, remove_document-Agrees, replace_all-Agrees,
}
use shadow_se.Index.Store.{
  IsLinked, add_document-IsLinked, remove_document-IsLinked, empty-IsLinked,
}
use shadow_se.Index.Totals.{
  IsTotalled, add_document-IsTotalled, remove_document-IsTotalled, empty-IsTotalled,
}

-- Postings agree with the documents' terms; URLs, documents and ids are linked; the total is the sum
-- of the lengths.
pub record IsValid (t : InvertedIndex) : Type 0 where
  pub agrees : Agrees t
  pub linked : IsLinked t
  pub totalled : IsTotalled t

-- While ids last, adding or replacing a document keeps the index valid: postings and document
-- terms agree, URLs, documents and ids are linked, and the total is the sum of the lengths.
pub add_document-IsValid :
    (doc : Document) (t : InvertedIndex)
    → IsValid t
    → t.next_id + 1 < 2 ^ 64
    → IsValid (add_document doc t).1
add_document-IsValid doc t v room = record {
  agrees = add_document-Agrees doc t v.agrees;
  linked = add_document-IsLinked doc t v.linked room;
  totalled = add_document-IsTotalled doc t v.linked v.totalled;
}

-- Removing any id, stored or not, keeps a valid index valid.
pub remove_document-IsValid :
    (id : ℕ) (t : InvertedIndex) → IsValid t → IsValid (remove_document id t)
remove_document-IsValid id t v = record {
  agrees = remove_document-Agrees id t v.agrees;
  linked = remove_document-IsLinked id t v.linked;
  totalled = remove_document-IsTotalled id t v.totalled;
}

pub empty-IsValid : IsValid empty
empty-IsValid = record {
  agrees = unfold replace_all add_all in replace_all-Agrees [] empty;
  linked = empty-IsLinked;
  totalled = empty-IsTotalled;
}

next-push_terms :
    (id : ℕ) (terms : Terms) (t : InvertedIndex) → (push_terms id terms t).next_id ≡ t.next_id
unfolding push_terms push_term
next-push_terms id [] t = refl
next-push_terms id ((term, f) ∷ terms) t = next-push_terms id terms (push_term id term f t)

next-assign_id :
    (url : Bytes) (o : Option ℕ) (t : InvertedIndex) → (assign_id url o t).1.next_id ≤ t.next_id + 1
unfolding assign_id
next-assign_id url none t = omega arith
next-assign_id url (some id) t = unfold unindex in omega arith

pub next-add_document :
    (doc : Document) (t : InvertedIndex) → (add_document doc t).1.next_id ≤ t.next_id + 1
unfolding add_document store_document
next-add_document doc t =
    let o = find doc.url t.url_to_id in
    omega (
      arith,
      next-assign_id doc.url o t,
      next-push_terms (assign_id doc.url o t).0 (term_freqs doc) (assign_id doc.url o t).1,
    )

add_all-IsValid :
    (docs : List Document) (t : InvertedIndex)
    → IsValid t
    → t.next_id + length docs < 2 ^ 64
    → IsValid (add_all docs t)
unfolding add_all
add_all-IsValid [] t v room = v
add_all-IsValid (d ∷ ds) t v room =
    add_all-IsValid ds (add_document d t).1 (add_document-IsValid d t v (omega arith))
      (omega (arith, next-add_document d t))

-- Loading a list of fewer than 2 ^ 64 - 1 documents leaves a valid index, whatever was in it
-- before.
pub replace_all-IsValid :
    (docs : List Document) (t : InvertedIndex)
    → length docs < 2 ^ 64 - 1
    → IsValid (replace_all docs t)
unfolding replace_all
replace_all-IsValid docs t room = add_all-IsValid docs empty empty-IsValid (omega arith)
