-- ===== src/Index.antt =====
-- src/inverted_index.cpp. Each public member function runs under the mutex of the object, so the
-- operations are taken one after another. Counters keep their width: 32 bits for a term frequency,
-- 64 bits for `nextId_`, `totalTerms_` and the lengths.
pub mod Agreement
pub mod Store
pub mod Weights
pub mod Totals
pub mod Valid
pub mod History
use shadow_se.Base.{
  ℕ, zero, suc, ◌+◌, ◌-◌, ◌*◌, ◌%◌, ◌^◌, Bool, true, false, Option, none, some, List, [], ◌∷◌, ◌++◌,
  ◌==◌, if◌then◌else◌, length, Bytes,
}
use shadow_se.Base.Map.{Map, find, put, erase, nat_key, bytes_key}
use shadow_se.Document.{Document}
use shadow_se.Tokenizer.{tokenize}

pub record Posting : Type 0 where
  pub doc_id : ℕ
  pub term_freq : ℕ

abbrev pub Terms : Type 0
Terms = List (Bytes × ℕ)

pub record InvertedIndex : Type 0 where
  pub postings : Map Bytes (List Posting)
  pub url_to_id : Map Bytes ℕ
  pub docs : Map ℕ Document
  pub doc_terms : Map ℕ Terms
  pub doc_lengths : Map ℕ ℕ
  pub next_id : ℕ
  pub total_terms : ℕ

abbrev pub empty : InvertedIndex
empty = record {
  postings = [];
  url_to_id = [];
  docs = [];
  doc_terms = [];
  doc_lengths = [];
  next_id = 1;
  total_terms = 0;
}

-- `m[k]` where a missing key reads as 0 or as an empty list.
abbrev pub or_zero : Option ℕ → ℕ
or_zero none = 0
or_zero (some n) = n

abbrev pub or_nil {ℓ} : {A : Type ℓ} → Option (List A) → List A
or_nil none = []
or_nil (some xs) = xs

-- `freqs[term] += n` on 32 bits.
unfoldable pub bump : Bytes → ℕ → Map Bytes ℕ → Map Bytes ℕ
bump term n freqs = put term ((or_zero (find term freqs) + n) % 2 ^ 32) freqs

unfoldable pub count_tokens : List Bytes → Map Bytes ℕ → Map Bytes ℕ
count_tokens [] freqs = freqs
count_tokens (tok ∷ toks) freqs = count_tokens toks (bump tok 1 freqs)

unfoldable pub index_text : Bytes → Map Bytes ℕ → Map Bytes ℕ
index_text text freqs = count_tokens (tokenize text) freqs

-- `for (term, freq) in other: freqs[term] += scale * freq`
unfoldable pub add_scaled : ℕ → Map Bytes ℕ → Map Bytes ℕ → Map Bytes ℕ
add_scaled scale [] freqs = freqs
add_scaled scale ((term, freq) ∷ other) freqs =
    add_scaled scale other (bump term (scale * freq % 2 ^ 32) freqs)

-- The weighted frequencies of a document: the title counts three times.
unfoldable pub term_freqs : Document → Map Bytes ℕ
term_freqs doc =
    let freqs = index_text doc.title [] in
    let title_freqs = index_text doc.title [] in
    let body = index_text doc.content (index_text doc.snippet []) in
    add_scaled 2 title_freqs (add_scaled 1 body freqs)

unfoldable pub without_doc : ℕ → List Posting → List Posting
without_doc id [] = []
without_doc id (p ∷ ps) = let rest = without_doc id ps in if p.doc_id == id then rest else p ∷ rest

-- One round of `removePostings`: an emptied list is dropped with its term.
unfoldable pub drop_list :
    Bytes → List Posting → Map Bytes (List Posting) → Map Bytes (List Posting)
drop_list term [] m = erase term m
drop_list term (p ∷ ps) m = put term (p ∷ ps) m

unfoldable pub remove_from :
    ℕ → Bytes → Option (List Posting) → Map Bytes (List Posting) → Map Bytes (List Posting)
unfolding drop_list
remove_from id term none m = m
remove_from id term (some ps) m = drop_list term (without_doc id ps) m

unfoldable pub remove_postings : ℕ → Terms → Map Bytes (List Posting) → Map Bytes (List Posting)
remove_postings id [] m = m
remove_postings id ((term, freq) ∷ terms) m =
    remove_postings id terms (remove_from id term (find term m) m)

-- The part that an update and a removal share: `removePostings`, `totalTerms_ -=`, both `erase`.
unfoldable pub unindex : ℕ → InvertedIndex → InvertedIndex
unindex id t = record t {
  postings = remove_postings id (or_nil (find id t.doc_terms)) t.postings;
  total_terms = (t.total_terms + 2 ^ 64 - or_zero (find id t.doc_lengths)) % 2 ^ 64;
  doc_lengths = erase id t.doc_lengths;
  doc_terms = erase id t.doc_terms;
}

-- The id for a URL: the old one, its terms taken out, or a new one.
unfoldable pub assign_id : Bytes → Option ℕ → InvertedIndex → ℕ × InvertedIndex
unfolding unindex
assign_id url (some id) t = (id, unindex id t)
assign_id url none t = (
  t.next_id,
  record t { next_id = (t.next_id + 1) % 2 ^ 64; url_to_id = put url t.next_id t.url_to_id },
)

-- One round of the loop over the new frequencies.
unfoldable pub push_term : ℕ → Bytes → ℕ → InvertedIndex → InvertedIndex
push_term id term freq t = record t {
  postings =
      put term (or_nil (find term t.postings) ++ record { doc_id = id; term_freq = freq } ∷ [])
        t.postings;
  doc_terms = put id (or_nil (find id t.doc_terms) ++ (term, freq) ∷ []) t.doc_terms;
  total_terms = (t.total_terms + freq) % 2 ^ 64;
}

unfoldable pub push_terms : ℕ → Terms → InvertedIndex → InvertedIndex
push_terms id [] t = t
push_terms id ((term, freq) ∷ terms) t = push_terms id terms (push_term id term freq t)

-- The loop that fills `docLengths_[id]`.
unfoldable pub sum_lengths : ℕ → Terms → ℕ
sum_lengths acc [] = acc
sum_lengths acc ((term, freq) ∷ terms) = sum_lengths ((acc + freq) % 2 ^ 64) terms

unfoldable pub store_document : ℕ → Document → InvertedIndex → InvertedIndex
store_document id doc t =
    let freqs = term_freqs doc in
    let pushed = push_terms id freqs t in
    record pushed {
      doc_lengths = put id (sum_lengths 0 freqs) pushed.doc_lengths;
      docs = put id (record doc { id = id }) pushed.docs;
    }

unfoldable pub add_document : Document → InvertedIndex → ℕ × InvertedIndex
add_document doc t =
    let (id, t') = assign_id doc.url (find doc.url t.url_to_id) t in (id, store_document id doc t')

unfoldable pub remove_found : ℕ → Option Document → InvertedIndex → InvertedIndex
remove_found id none t = t
remove_found id (some doc) t =
    let t' = unindex id t in
    record t' { url_to_id = erase doc.url t'.url_to_id; docs = erase id t'.docs }

unfoldable pub remove_document : ℕ → InvertedIndex → InvertedIndex
unfolding remove_found
remove_document id t = remove_found id (find id t.docs) t

unfoldable pub clear : InvertedIndex → InvertedIndex
clear t = empty

unfoldable pub add_all : List Document → InvertedIndex → InvertedIndex
add_all [] t = t
add_all (d ∷ ds) t = add_all ds (add_document d t).1

unfoldable pub replace_all : List Document → InvertedIndex → InvertedIndex
replace_all docs t = add_all docs empty

unfoldable pub postings_of : Bytes → InvertedIndex → Option (List Posting)
postings_of term t = find term t.postings

unfoldable pub document : ℕ → InvertedIndex → Option Document
document id t = find id t.docs

unfoldable pub document_count : InvertedIndex → ℕ
document_count t = length t.docs

unfoldable pub term_count : InvertedIndex → ℕ
term_count t = length t.postings

unfoldable pub doc_length : ℕ → InvertedIndex → ℕ
doc_length id t = or_zero (find id t.doc_lengths)

unfoldable pub values : Map ℕ Document → List Document
values [] = []
values ((id, doc) ∷ m) = doc ∷ values m

unfoldable pub all_documents : InvertedIndex → List Document
unfolding values
all_documents t = values t.docs
