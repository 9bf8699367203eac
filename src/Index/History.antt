-- ===== src/Index/History.antt =====
-- src/inverted_index.cpp: any history of calls from a new index.
use shadow_se.Base.{
  ℕ, ◌+◌, ◌-◌, ◌^◌, ◌≤◌, ◌<◌, ◌≡◌, refl, Option, none, some, List, [], ◌∷◌, length, arith,
}
use shadow_se.Base.Map.{find, nat_key}
use shadow_se.Document.{Document}
use shadow_se.Index.{
  InvertedIndex, empty, unindex, add_document, remove_found, remove_document, clear, add_all,
  replace_all,
}
use shadow_se.Index.Valid.{
  IsValid, add_document-IsValid, remove_document-IsValid, replace_all-IsValid, empty-IsValid,
  next-add_document,
}

-- A call that changes the index, under its mutex.
pub data Change : Type 0 where
  added : Document → Change
  removed : ℕ → Change
  replaced : List Document → Change
  cleared : Change

unfoldable pub change : Change → InvertedIndex → InvertedIndex
change (added doc) t = (add_document doc t).1
change (removed id) t = remove_document id t
change (replaced docs) t = replace_all docs t
change cleared t = clear t

unfoldable pub run_changes : List Change → InvertedIndex → InvertedIndex
unfolding change
run_changes [] t = t
run_changes (c ∷ cs) t = run_changes cs (change c t)

-- The number of documents that the calls hand over.
abbrev pub documents_in : List Change → ℕ
documents_in [] = 0
documents_in (added doc ∷ cs) = 1 + documents_in cs
documents_in (removed id ∷ cs) = documents_in cs
documents_in (replaced docs ∷ cs) = length docs + documents_in cs
documents_in (cleared ∷ cs) = documents_in cs

next-remove_found :
    (id : ℕ) (o : Option Document) (t : InvertedIndex) → (remove_found id o t).next_id ≡ t.next_id
unfolding remove_found unindex
next-remove_found id none t = refl
next-remove_found id (some doc) t = refl

next-add_all :
    (docs : List Document) (t : InvertedIndex) → (add_all docs t).next_id ≤ t.next_id + length docs
unfolding add_all
next-add_all [] t = omega arith
next-add_all (d ∷ ds) t = omega (arith, next-add_all ds (add_document d t).1, next-add_document d t)

next-replace_all :
    (docs : List Document) (t : InvertedIndex) → (replace_all docs t).next_id ≤ 1 + length docs
unfolding replace_all
next-replace_all docs t = next-add_all docs empty

-- From an index whose next id leaves room for the documents.
run_changes_from :
    (cs : List Change) (t : InvertedIndex)
    → IsValid t
    → 1 + documents_in cs < 2 ^ 64
    → t.next_id + documents_in cs < 2 ^ 64
    → IsValid (run_changes cs t)
unfolding run_changes clear
run_changes_from [] t v low room = v
run_changes_from (added doc ∷ cs) t v low room =
    run_changes_from cs (add_document doc t).1 (add_document-IsValid doc t v (omega arith))
      (omega arith) (omega (arith, next-add_document doc t))
run_changes_from (removed id ∷ cs) t v low room =
    run_changes_from cs (remove_document id t) (remove_document-IsValid id t v) low
      (unfold remove_document in omega (arith, next-remove_found id (find id t.docs) t))
run_changes_from (replaced docs ∷ cs) t v low room =
    run_changes_from cs (replace_all docs t) (replace_all-IsValid docs t (omega arith))
      (omega arith) (omega (arith, next-replace_all docs t))
run_changes_from (cleared ∷ cs) t v low room =
    run_changes_from cs empty empty-IsValid (omega arith) (omega arith)

-- Whatever documents are added, replaced, removed, loaded and cleared in whatever order, as long as fewer
-- than 2 ^ 64 - 1 documents are handed over, the index stays valid: its postings and the terms of its
-- documents agree, URLs, documents and ids are linked, and the total is the sum of the lengths modulo 2 ^ 64.
pub run_changes-IsValid :
    (cs : List Change) → documents_in cs < 2 ^ 64 - 1 → IsValid (run_changes cs empty)
run_changes-IsValid cs room = run_changes_from cs empty empty-IsValid (omega arith) (omega arith)
