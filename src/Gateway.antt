-- ===== src/Gateway.antt =====
-- src/gateway.cpp: the JSON of the answers and the handlers. The vendored HTTP library routes a request to
-- its handler and hands over the parameter or the body; a response starts with status 200. A number
-- is an abstract `double`, shared by the scores and the JSON values.
pub mod Answers
use shadow_se.Base.{
  ℕ, Bool, true, false, not, Option, none, some, List, [], ◌∷◌, ◌++◌, ◌==◌, if◌then◌else◌, length,
  take, Bytes, codes, is_empty,
}
use shadow_se.Document.{is_onion}
use shadow_se.Index.{document_count, term_count}
use shadow_se.Crawler.{Options}
use shadow_se.Ranking.{Reals, Scored, average_doc_length}
use shadow_se.Json.{
  Value, Numbers, null, boolean, number, text, array, object, assign, push, dump, as_string,
}
use shadow_se.Json
use shadow_se.Json.Parse.{Outcome, parsed, failed, trailing, unfinished, parse}
use shadow_se.TorProxy.{TorStatus, up, down, unknown}
use shadow_se.Engine.{
  Engine, normalize_url, search_documents, crawl, crawled_pages, pending_crawls, crawler_busy,
}

pub record Response : Type 0 where
  pub status : ℕ
  pub body : Bytes

unfoldable pub tor_text : TorStatus → Bytes
tor_text up = codes "up"
tor_text down = codes "down"
tor_text unknown = codes "unknown"

-- `req.has_param(k) ? req.get_param_value(k) : ""`
unfoldable pub param_or_empty : Option Bytes → Bytes
param_or_empty none = []
param_or_empty (some value) = value

module _ {D : Type 0} where
  unfoldable pub error_value : Bytes → Value D
  error_value message = assign (codes "error") (text message) null

  -- `q != nullptr ? q->asString() : ""`
  unfoldable pub string_or_empty : Option (Value D) → Bytes
  string_or_empty none = []
  string_or_empty (some v) = as_string [] v

  unfoldable pub object_body : Value D → Option (Value D)
  object_body (object fields) = some (object fields)
  object_body v = none

  -- The body of a request, if it is an object.
  unfoldable pub body_object : Outcome D → Option (Value D)
  unfolding object_body
  body_object (parsed v) = object_body v
  body_object outcome = none

-- `to_string` prints the offset of a syntax error.
module _ {D : Type 0} (numbers : Numbers D) (reals : Reals D) (k1 b : D) (max_query : ℕ)
    (to_string : ℕ → Bytes) where
  unfoldable pub result_value : Scored D → Value D
  result_value r =
      assign (codes "source") (text (if is_onion r.doc then codes "onion" else codes "clearweb")) (
        assign (codes "score") (number r.score) (
          assign (codes "snippet") (text r.doc.snippet) (
            assign (codes "url") (text r.doc.url)
              (assign (codes "title") (text r.doc.title) null))))

  -- The loop over the results.
  unfoldable pub push_results : List (Scored D) → Value D → Value D
  unfolding result_value
  push_results [] arr = arr
  push_results (r ∷ rs) arr = push_results rs (push (result_value r) arr)

  unfoldable pub search_value : Bytes → Engine → Value D
  unfolding push_results
  search_value query e =
      let q = take max_query query in
      let results = search_documents reals k1 b q 20 e in
      assign (codes "results") (push_results results null) (
        assign (codes "count") (number (reals.of_nat (length results)))
          (assign (codes "query") (text q) null))

  unfoldable pub search_json : Bytes → Engine → Bytes
  unfolding search_value
  search_json query e = dump numbers false (search_value query e)

  unfoldable pub status_value : Engine → Value D
  unfolding tor_text
  status_value e = assign (codes "tor") (text (tor_text e.last_tor)) (
      assign (codes "fetcher") (text e.fetcher_name) (
        assign (codes "crawler_running") (boolean (crawler_busy e)) (
          assign (codes "pending_crawls") (number (reals.of_nat (pending_crawls e))) (
            assign (codes "crawled_pages") (number (reals.of_nat (crawled_pages e))) (
              assign (codes "average_doc_length") (number (average_doc_length reals e.index)) (
                assign (codes "terms") (number (reals.of_nat (term_count e.index))) (
                  assign (codes "documents") (number (reals.of_nat (document_count e.index)))
                    null)))))))

  unfoldable pub status_json : Engine → Bytes
  unfolding status_value
  status_json e = dump numbers false (status_value e)

  unfoldable pub json_error : Bytes → ℕ → Response
  unfolding error_value
  json_error message code = record {
    status = code;
    body = dump numbers false (error_value message);
  }

  unfoldable pub respond : Bytes → Response
  respond body = record { status = 200; body = body }

  -- `err` after `json::parse`.
  unfoldable pub parse_error : Outcome D → Bytes
  parse_error (parsed v) = []
  parse_error (failed offset message) =
      codes "JSON parse error at offset " ++ (to_string offset ++ (codes ": " ++ message))
  parse_error trailing = codes "JSON parse error: trailing data after document"
  parse_error unfinished = []

  unfoldable pub invalid_body : Outcome D → Response
  unfolding parse_error json_error
  invalid_body outcome = json_error (codes "invalid JSON body: " ++ parse_error outcome) 400

  unfoldable pub get_search : Option Bytes → Engine → Response
  unfolding search_json respond param_or_empty
  get_search q e = respond (search_json (param_or_empty q) e)

  unfoldable pub search_from : Outcome D → Option (Value D) → Engine → Response
  unfolding invalid_body search_json respond string_or_empty
  search_from outcome none e = invalid_body outcome
  search_from outcome (some body) e =
      respond (search_json (string_or_empty (Json.find (codes "q") body)) e)

  unfoldable pub post_search : Bytes → Engine → Response
  unfolding search_from body_object
  post_search body e =
      let outcome = parse numbers body in search_from outcome (body_object outcome) e

  module _ (hash : Bytes → ℕ) (o : Options) where
    unfoldable pub enqueue_url : Bytes → Engine → Response × Engine
    unfolding json_error respond
    enqueue_url url e =
        let (accepted, e') = crawl hash o url e in
        (
          respond (
              dump numbers false (
                assign (codes "enqueued") (boolean accepted)
                  (assign (codes "url") (text url) null))),
          e',
        )

    unfoldable pub handle_crawl : Bytes → Engine → Response × Engine
    unfolding enqueue_url
    handle_crawl raw e =
        if is_empty (normalize_url raw)
        then (json_error (codes "a valid url is required") 400, e)
        else enqueue_url (normalize_url raw) e

    unfoldable pub get_crawl : Option Bytes → Engine → Response × Engine
    unfolding handle_crawl param_or_empty
    get_crawl url e = handle_crawl (param_or_empty url) e

    unfoldable pub crawl_from : Outcome D → Option (Value D) → Engine → Response × Engine
    unfolding handle_crawl invalid_body string_or_empty
    crawl_from outcome none e = (invalid_body outcome, e)
    crawl_from outcome (some body) e =
        handle_crawl (string_or_empty (Json.find (codes "url") body)) e

    unfoldable pub post_crawl : Bytes → Engine → Response × Engine
    unfolding crawl_from body_object
    post_crawl body e =
        let outcome = parse numbers body in crawl_from outcome (body_object outcome) e

  unfoldable pub get_status : Engine → Response
  unfolding status_json respond
  get_status e = respond (status_json e)

  -- The error handler.
  unfoldable pub on_error : Response → Response
  unfolding error_value
  on_error r =
      if r.status == 404
      then record r { body = dump numbers false (error_value (codes "not found")) }
      else r
