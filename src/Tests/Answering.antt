-- ===== src/Tests/Answering.antt =====
-- src/bm25.cpp and src/gateway.cpp on concrete inputs. Numbers are natural, with one digit printed.
use shadow_se.Base.{
  ℕ, ◌+◌, ◌-◌, ◌*◌, ◌/◌, ◌%◌, ◌≤◌, ◌<◌, ◌≡◌, refl, true, false, some, List, [], ◌∷◌, All, ltb, leb,
  ◌==◌, length, Bytes, codes, same_bytes, arith,
}
use shadow_se.Bloom
use shadow_se.Bloom.{fnv1a}
use shadow_se.Index.{
  InvertedIndex, empty, assign_id, drop_list, push_term, push_terms, remove_from, remove_postings,
  sum_lengths, unindex, without_doc, add_document, store_document, document_count, document,
  term_freqs, add_scaled, index_text, count_tokens, bump, postings_of,
}
use shadow_se.Index.Store.{IsLinked, add_document-IsLinked}
use shadow_se.Index.Valid.{empty-IsValid}
use shadow_se.Base.Map.{find, put, erase, bytes_key}
use shadow_se.Crawler.{Options, make, member}
use shadow_se.Ranking.{
  Reals, rank, query_terms, rank_terms, average_doc_length, add_terms, add_found, add_postings,
  add_posting, results_of, add_result, insert_term, sort_terms, unique_from, unique_terms,
  text_before, insert_result, sort_results, before,
}
use shadow_se.Ranking.Order.{IsOrder, IsDescending, rank-IsDescending}
use shadow_se.Ranking.Matches.{IsFound, rank-IsFound}
use shadow_se.Json.{Numbers, assign, assign_field, subscript, ensure_field, object_of}
use shadow_se.Tokenizer.{
  tokenize, decode_utf8, flush, take_codepoint, is_token_character, fold_case, accept,
  append_codepoint, continuation, encode, lead, rejected, scan, sequence,
}
use shadow_se.Json
use shadow_se.TorProxy.{unknown}
use shadow_se.Document.{Document, onion}
use shadow_se.Ranking.Complete.{has_result}
use shadow_se.Engine.Found.{search_documents-add_to_index}
use shadow_se.Engine.{Engine, add_to_index, demo_docs, demo_vault, search_documents}
use shadow_se.Gateway.{post_crawl}
use shadow_se.Gateway.Answers.{IsCrawlAnswer, post_crawl-IsCrawlAnswer}

abbrev naturals : Reals ℕ
naturals = record {
  of_nat = λ n. n;
  half = 0;
  plus = λ x y. x + y;
  minus = λ x y. x - y;
  times = λ x y. x * y;
  over = λ x y. x / y;
  log = λ x. x;
  greater = λ x y. ltb y x;
  at_most = λ x y. leb x y;
  same = λ x y. x == y;
}

naturals-IsOrder : IsOrder naturals
naturals-IsOrder = (λ x y. ground arith, λ x y h. ground arith, λ x y h. ground arith)

abbrev stored : InvertedIndex
stored = (add_document demo_vault (add_document demo_docs empty).1).1

docs-IsLinked : IsLinked (add_document demo_docs empty).1
docs-IsLinked = add_document-IsLinked demo_docs empty empty-IsValid.linked (omega arith)

query : List Bytes
query = codes "tor" ∷ codes "onion" ∷ []

rank-IsDescending_example :
    IsDescending naturals (rank naturals 1 0 stored query 20)
    × (length (rank naturals 1 0 stored query 20) ≤ 20)
rank-IsDescending_example = rank-IsDescending naturals 1 0 stored query 20 naturals-IsOrder

rank-IsFound_example :
    All
      (IsFound naturals (add_document demo_docs empty).1 query)
      (rank naturals 1 0 (add_document demo_docs empty).1 query 20)
rank-IsFound_example =
    rank-IsFound naturals 1 0 (add_document demo_docs empty).1 query 20 docs-IsLinked

abbrev digit_value : Bytes → ℕ
digit_value [] = 0
digit_value (c ∷ s) = c - 48

abbrev digit_numbers : Numbers ℕ
digit_numbers = record {
  is_integer = λ n. true;
  integer_text = λ n. (48 + n % 10) ∷ [];
  stream_text = λ n. [];
  strtod = digit_value;
}

abbrev decimal : ℕ → Bytes
decimal n = codes "0"

abbrev options : Options
options = record { worker_count = 2; max_pages = 10; max_depth = 1 }

abbrev engine : Engine
engine = record {
  index = empty;
  crawler = make (Bloom.make 128 3);
  fetcher_name = codes "stub";
  last_tor = unknown;
}

post_crawl-IsCrawlAnswer_example :
    IsCrawlAnswer digit_numbers naturals 1 0 8 decimal fnv1a options engine (
      post_crawl digit_numbers naturals 1 0 8 decimal fnv1a options
        (codes "{\"url\": \"example.com/x\"}")
        engine)
post_crawl-IsCrawlAnswer_example =
    post_crawl-IsCrawlAnswer digit_numbers naturals 1 0 8 decimal fnv1a options
      (codes "{\"url\": \"example.com/x\"}") engine

abbrev note : Document
note = record {
  id = 0;
  url = codes "http://a.onion/";
  title = codes "Tor";
  snippet = [];
  content = [];
  source = onion;
  depth = 0;
}

note-has : find (codes "tor") (term_freqs note) ≡ some 3
unfolding find add_scaled index_text count_tokens bump put term_freqs tokenize decode_utf8 flush
    take_codepoint is_token_character fold_case same_bytes accept append_codepoint continuation
    encode lead rejected scan sequence
note-has = refl

note-asked : member (codes "tor") (tokenize (codes "the TOR")) ≡ true
unfolding member tokenize decode_utf8 flush take_codepoint is_token_character fold_case same_bytes
    accept append_codepoint continuation encode lead rejected scan sequence
note-asked = refl

note-long :
    naturals.at_most (average_doc_length naturals (add_to_index note engine).index) 0 ≡ false
unfolding add_to_index find put erase assign_id drop_list push_term push_terms remove_from
    remove_postings sum_lengths unindex without_doc add_document store_document document_count
    document term_freqs add_scaled index_text count_tokens bump postings_of average_doc_length
    tokenize decode_utf8 flush take_codepoint is_token_character fold_case same_bytes accept
    append_codepoint continuation encode lead rejected scan sequence
note-long = refl

note-short :
    length (search_documents naturals 1 0 (codes "the TOR") 20 (add_to_index note engine)) < 20
unfolding search_documents add_to_index find put erase assign_id drop_list push_term push_terms
    remove_from remove_postings sum_lengths unindex without_doc add_document store_document
    document_count document term_freqs add_scaled index_text count_tokens bump postings_of rank
    query_terms rank_terms average_doc_length add_terms add_found add_postings add_posting
    results_of add_result insert_term sort_terms unique_from unique_terms text_before insert_result
    sort_results before tokenize decode_utf8 flush take_codepoint is_token_character fold_case
    same_bytes accept append_codepoint continuation encode lead rejected scan sequence
note-short = omega arith

search_documents-add_to_index_example :
    has_result
      (add_document note empty).0
      (search_documents naturals 1 0 (codes "the TOR") 20 (add_to_index note engine))
    ≡ true
search_documents-add_to_index_example =
    search_documents-add_to_index naturals 1 0 note engine (codes "tor") 3 (codes "the TOR") 20
      empty-IsValid (omega arith) note-has note-asked note-long note-short
