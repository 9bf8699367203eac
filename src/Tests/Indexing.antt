-- ===== src/Tests/Indexing.antt =====
-- src/tokenizer.cpp and src/inverted_index.cpp on concrete texts and documents.
use shadow_se.Base.{◌≡◌, ◌*◌, ◌+◌, ◌%◌, ◌^◌, arith, none, some, [], ◌∷◌, ◌++◌, Bytes, codes, List}
use shadow_se.Base.Map.{find, nat_key, bytes_key}
use shadow_se.Document.{Document, clear_web, onion}
use shadow_se.Tokenizer.{tokenize}
use shadow_se.Tokenizer.Rescan.{unwords, tokenize-tokenize}
use shadow_se.Index.{
  InvertedIndex, assign_id, empty, term_freqs, add_document, replace_all, document,
}
use shadow_se.Index.Agreement.{posted}
use shadow_se.Index.Store.{stamped, document-add_document}
use shadow_se.Index.Weights.{freq, count, freq-term_freqs, posted-add_document}
use shadow_se.Index.History.{
  added, removed, replaced, cleared, Change, run_changes, run_changes-IsValid,
}
use shadow_se.Index.Valid.{IsValid, empty-IsValid, add_document-IsValid, replace_all-IsValid}

-- "Tor é 42!" in UTF-8.
abbrev text : Bytes
text = codes "Tor " ++ 195 ∷ 137 ∷ codes " 42!"

tokenize-tokenize_example : tokenize (unwords (tokenize text)) ≡ tokenize text
tokenize-tokenize_example = tokenize-tokenize text

abbrev page : Document
page = record {
  id = 0;
  url = codes "http://a/";
  title = codes "Tor";
  snippet = codes "tor net";
  content = codes "the tor";
  source = clear_web;
  depth = 1;
}

abbrev other : Document
other = record page { url = codes "http://b.onion/"; title = codes "Onion net"; source = onion }

abbrev changed : Document
changed = record page { title = codes "New"; content = codes "all new" }

abbrev stocked : InvertedIndex
stocked = replace_all (page ∷ other ∷ []) empty

stocked-IsValid : IsValid stocked
stocked-IsValid = replace_all-IsValid (page ∷ other ∷ []) empty (omega arith)

abbrev history : List Change
history =
    added page
    ∷ added other
    ∷ added changed
    ∷ removed 2
    ∷ cleared
    ∷ replaced (page ∷ other ∷ [])
    ∷ added changed
    ∷ []

run_changes-IsValid_example : IsValid (run_changes history empty)
run_changes-IsValid_example = run_changes-IsValid history (omega arith)

freq-term_freqs_example :
    freq (codes "tor") (term_freqs page)
    ≡ (3 * count (codes "tor") (tokenize page.title)
        + count (codes "tor") (tokenize page.snippet)
        + count (codes "tor") (tokenize page.content))
      % 2 ^ 32
freq-term_freqs_example = freq-term_freqs page (codes "tor")

posted-add_document_example :
    posted (add_document changed stocked).0 (codes "tor") (add_document changed stocked).1.postings
    ≡ elim (find (codes "tor") (term_freqs changed)) [ none ↦ [] | some f ↦ f ∷ [] ]
posted-add_document_example =
    posted-add_document changed stocked (codes "tor") stocked-IsValid.agrees stocked-IsValid.linked

-- The index of one document, with the id 1.
abbrev one : InvertedIndex
one = (add_document page empty).1

one-IsValid : IsValid one
one-IsValid = add_document-IsValid page empty empty-IsValid (omega arith)

one_known : document 1 one ≡ some (stamped 1 page)
unfolding find add_document assign_id
one_known = document-add_document page empty 1
