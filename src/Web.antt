-- ===== src/Web.antt =====
-- src/web_server.cpp: escaping, decoding, the routing of a request and the page. Sockets are not
-- modelled: a client is the list of the chunks that `recv` returns, the search is a parameter, and
-- so is the text that the stream prints for a score.
pub mod Escape
pub mod Request
pub mod Page
pub mod Responses
pub mod Connections
use shadow_se.Base.{
  ℕ, zero, suc, ◌+◌, ◌-◌, ◌*◌, Bool, true, false, not, ◌&&◌, ◌||◌, Option, none, some, List, [],
  ◌∷◌, ◌++◌, ltb, leb, ◌==◌, within, if◌then◌else◌, length, take, drop, Bytes, codes, same_bytes,
  is_empty, starts_with, has_sub, cut, cut_sub, span_until, is_space,
}
use shadow_se.Document.{Document, is_onion}

unfoldable pub escape_byte : ℕ → Bytes
escape_byte c =
    if c == b'&'
    then codes "&amp;"
    else if c == b'<'
    then codes "&lt;"
    else if c == b'>'
    then codes "&gt;"
    else if c == b'"'
    then codes "&quot;"
    else if c == 39
    then codes "&#39;"
    else c ∷ []

unfoldable pub escape_html : Bytes → Bytes
unfolding escape_byte
escape_html [] = []
escape_html (c ∷ s) = escape_byte c ++ escape_html s

-- The lambda `hex`; `none` for -1.
unfoldable pub hex_digit : ℕ → Option ℕ
hex_digit h =
    if within b'0' b'9' h
    then some (h - b'0')
    else if within b'a' b'f' h
    then some (h - b'a' + 10)
    else if within b'A' b'F' h
    then some (h - b'A' + 10)
    else none

unfoldable pub hex_pair : Option ℕ → Option ℕ → Option ℕ
hex_pair (some hi) (some lo) = some (hi * 16 + lo)
hex_pair _ _ = none

unfoldable pub cons_decoded : Option ℕ → Option Bytes → Option Bytes
cons_decoded (some c) (some s) = some (c ∷ s)
cons_decoded _ _ = none

-- `urlDecode`; `none` for a malformed escape.
unfoldable pub url_decode : Bytes → Option Bytes
unfolding hex_digit hex_pair cons_decoded
url_decode [] = some []
url_decode (c ∷ []) =
    if c == b'+' then some (b' ' ∷ []) else if c == b'%' then none else some (c ∷ [])
url_decode (c ∷ d ∷ []) =
    let rest = url_decode (d ∷ []) in
    if c == b'+'
    then cons_decoded (some b' ') rest
    else if c == b'%'
    then none
    else cons_decoded (some c) rest
url_decode (c ∷ d ∷ e ∷ s) =
    let rest = url_decode (d ∷ e ∷ s) in
    let behind = url_decode s in
    if c == b'+'
    then cons_decoded (some b' ') rest
    else if c == b'%'
    then cons_decoded (hex_pair (hex_digit d) (hex_digit e)) behind
    else cons_decoded (some c) rest

-- The loop of `handleClient`: what was read before the blank line, if it comes in time.
unfoldable pub read_head : ℕ → Bytes → List Bytes → Option Bytes
read_head max buf [] = none
read_head max buf (chunk ∷ chunks) =
    let more = read_head max (buf ++ chunk) chunks in
    let found : Option Bytes = elim (cut_sub (codes "\r\n\r\n") (buf ++ chunk)) [
      | none ↦ more
      | some (head, rest) ↦ some head
    ] in
    if ltb (length buf) max then found else none

unfoldable pub request_line : Bytes → Bytes
request_line head = elim (cut_sub (codes "\r\n") head) [ none ↦ head | some (line, rest) ↦ line ]

-- `stream >> word`: the next word and what follows it.
unfoldable pub next_word : Bytes → Bytes × Bytes
next_word s = span_until is_space (span_until (λ c. not (is_space c)) s).1

unfoldable pub method_and_target : Bytes → Bytes × Bytes
method_and_target line = let (method, rest) = next_word line in (method, (next_word rest).0)

-- The path and the query of a target.
unfoldable pub split_target : Bytes → Bytes × Bytes
split_target target = elim (cut b'?' target) [
  | none ↦ (target, [])
  | some (path, query) ↦ (path, query)
]

-- The pieces between the '&' of a query string.
abbrev cons_piece : ℕ → List Bytes → List Bytes
cons_piece c [] = (c ∷ []) ∷ []
cons_piece c (p ∷ ps) = (c ∷ p) ∷ ps

unfoldable pub pieces : Bytes → List Bytes
pieces [] = [] ∷ []
pieces (c ∷ s) = let rest = pieces s in if c == b'&' then [] ∷ rest else cons_piece c rest

-- The loop over the pieces: the first that starts with the name, without it.
unfoldable pub first_param : Bytes → List Bytes → Option Bytes
first_param name [] = none
first_param name (p ∷ ps) =
    let rest = first_param name ps in
    if starts_with name p then some (drop (length name) p) else rest

unfoldable pub or_empty : Option Bytes → Bytes
or_empty none = []
or_empty (some s) = s

-- `q=`, decoded and cut to the limit. A malformed escape leaves the query empty.
unfoldable pub query_of : ℕ → Bytes → Bytes
unfolding or_empty
query_of max query_string =
    let decoded : Bytes = elim (first_param (codes "q=") (pieces query_string)) [
      | none ↦ []
      | some raw ↦ or_empty (url_decode raw)
    ] in
    if ltb max (length decoded) then take max decoded else decoded

pub record Scored (Score : Type 0) : Type 0 where
  pub doc : Document
  pub score : Score

pub data Response : Type 0 where
  not_allowed bad_request not_found : Response
  page : Bytes → Response

unfoldable pub status : Response → ℕ
status not_allowed = 405
status bad_request = 400
status not_found = 404
status (page body) = 200

abbrev pub page_head : Bytes
page_head =
    codes
      "</title>\n<meta name=\"robots\" content=\"noindex, nofollow, noarchive\">\n<style>body{font-family:ui-monospace,Menlo,Consolas,monospace;background:#0d1117;color:#c9d1d9;max-width:760px;margin:2rem auto;padding:0 1rem;line-height:1.5}h1{color:#58a6ff;font-size:1.3rem}a{color:#58a6ff;word-break:break-all}input{width:100%;padding:.55rem;background:#161b22;border:1px solid #30363d;color:#c9d1d9;border-radius:6px;font:inherit}.meta{color:#8b949e;font-size:.85rem}.d{color:#bc8cff}.c{color:#3fb950}.s{color:#e3b341}li{margin:.9rem 0}.hint{color:#484f58;font-size:.8rem}</style></head><body>\n<h1>Shadow SE</h1>\n<form method=\"get\" action=\"/\">\n<input type=\"text\" name=\"q\" maxlength=\"256\" autofocus placeholder=\"search the index&hellip;\" value=\""

abbrev pub page_tail : Bytes
page_tail =
    codes
      "<p class=\"hint\">Use <code>search</code>/<code>crawl</code> in the terminal, or crawl then <code>save</code> an encrypted snapshot and start <code>shadow-se-web --load &lt;snapshot&gt;</code>.</p>\n</body></html>\n"

unfoldable pub badge : Bool → Bytes
badge true = codes "<span class=\"d\">[DARKWEB]</span>"
badge false = codes "<span class=\"c\">[CLEARWEB]</span>"

module _ {Score : Type 0} (show_score : Score → Bytes) (show_count : ℕ → Bytes) where
  unfoldable pub render_result : Scored Score → Bytes
  render_result r =
      codes "<li>"
      ++ (badge (is_onion r.doc)
          ++ (codes " <strong>"
              ++ (escape_html r.doc.title
                  ++ (codes "</strong><br>\n<a href=\""
                      ++ (escape_html r.doc.url
                          ++ (codes "\">"
                              ++ (escape_html r.doc.url
                                  ++ (codes "</a><br>\n<span class=\"meta\">"
                                      ++ (escape_html r.doc.snippet
                                          ++ (codes "</span> <span class=\"s\">score "
                                              ++ (show_score r.score
                                                  ++ codes "</span></li>\n")))))))))))

  unfoldable pub render_results : List (Scored Score) → Bytes
  render_results [] = []
  render_results (r ∷ rs) = render_result r ++ render_results rs

  -- The lines about the query and its matches.
  unfoldable pub render_summary : Bytes → List (Scored Score) → Bytes
  render_summary [] rs = []
  render_summary (c ∷ query) rs =
      codes "<p class=\"meta\">"
      ++ (show_count (length rs)
          ++ (codes " result(s) for <span class=\"s\">"
              ++ (escape_html (c ∷ query)
                  ++ codes "</span> &mdash; no cookies, no logs, no trackers.</p>\n")))

  unfoldable pub render_none : Bytes → List (Scored Score) → Bytes
  render_none query (r ∷ rs) = []
  render_none query [] = if is_empty query then [] else codes "<p class=\"meta\">No matches.</p>\n"

  unfoldable pub render_list : List (Scored Score) → Bytes
  render_list [] = []
  render_list (r ∷ rs) = codes "<ol>\n" ++ (render_results (r ∷ rs) ++ codes "</ol>\n")

  unfoldable pub render_page : Bytes → Bytes → List (Scored Score) → Bytes
  render_page title query rs =
      codes "<!DOCTYPE html>\n<html lang=\"en\"><head><meta charset=\"utf-8\">\n<title>"
      ++ (escape_html title
          ++ (page_head
              ++ (escape_html query
                  ++ (codes "\">\n</form>\n"
                      ++ (render_summary query rs
                          ++ (render_none query rs ++ (render_list rs ++ page_tail)))))))

  -- `serveRequest` behind the split of the target.
  unfoldable pub serve_path : (Bytes → List (Scored Score)) → ℕ → Bytes → Bytes × Bytes → Response
  serve_path search max title (path, query_string) =
      let query = query_of max query_string in
      let results = if is_empty query then [] else search query in
      if same_bytes path (codes "/") then page (render_page title query results) else not_found

  unfoldable pub serve_request : (Bytes → List (Scored Score)) → ℕ → Bytes → Bytes → Response
  serve_request search max title line =
      let (method, target) = method_and_target line in
      if not (same_bytes method (codes "GET"))
      then not_allowed
      else if has_sub (codes "..") target
      then bad_request
      else serve_path search max title (split_target target)

  -- `handleClient`: no answer to a request that is malformed or too long.
  unfoldable pub handle_client :
      (Bytes → List (Scored Score)) → ℕ → ℕ → Bytes → List Bytes → Option Response
  handle_client search max_request max title chunks = elim (read_head max_request [] chunks) [
    | none ↦ none
    | some head ↦ some (serve_request search max title (request_line head))
  ]
