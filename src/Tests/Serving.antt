-- ===== src/Tests/Serving.antt =====
-- src/web_server.cpp and src/admin.cpp on concrete requests.
use shadow_se.Base.{
  ℕ, ◌≡◌, ◌<◌, ◌↔◌, refl, arith, false, some, List, [], ◌∷◌, if◌then◌else◌, Bytes, codes, has_sub,
  is_empty, All, IsByte,
}
use shadow_se.Document.{onion}
use shadow_se.Web.{
  bad_request, page, Scored, render_page, serve_request, method_and_target, split_target,
  request_line, pieces, first_param,
}
use shadow_se.Web.Escape.{inert}
use shadow_se.Web.Request.{form_line, serve_request-form_line}
use shadow_se.Web.Page.{occurrences, bare, bare_query, render_page-bare}
use shadow_se.Admin.{ActivityEvent, new_log, reply_to, dashboard}
use shadow_se.Admin.Log.{add_events, latest, add_events-latest}
use shadow_se.Admin.Access.{reply_to-dashboard}

abbrev script : Bytes
script = codes "<script>'&\""

abbrev typed : Bytes
typed = codes "tor & web"

typed-IsByte : All IsByte typed
typed-IsByte = ground arith

abbrev show_number : ℕ → Bytes
show_number n = codes "7"

abbrev result : Scored ℕ
result = record {
  doc = record {
    id = 1;
    url = codes "http://b.onion/";
    title = script;
    snippet = script;
    content = [];
    source = onion;
    depth = 0;
  };
  score = 3;
}

render_page-bare_example :
    occurrences b'<' (render_page show_number show_number script script (result ∷ []))
    ≡ occurrences b'<'
        (render_page show_number show_number [] (bare_query script) (bare result ∷ []))
unfolding inert
render_page-bare_example =
    render_page-bare show_number show_number b'<' refl script script (result ∷ [])

abbrev no_results : Bytes → List (Scored ℕ)
no_results query = []

abbrev get : Bytes
get = codes "GET /?q=tor HTTP/1.1"

serve_request-form_line_example :
    serve_request show_number show_number no_results 256 (codes "S") (form_line typed) ≡ (
      if has_sub (codes "..") typed
      then bad_request
      else page (
          render_page show_number show_number
            (codes "S")
            typed
            (if is_empty typed then [] else no_results typed)))
serve_request-form_line_example =
    serve_request-form_line show_number show_number no_results 256 (codes "S") typed typed-IsByte
      (omega arith)

abbrev event : ActivityEvent ℕ
event = record { time = 1; kind = codes "info"; url = []; text = [] }

add_events-latest_example :
    ((add_events (event ∷ record event { time = 2 } ∷ []) (new_log 1)).events
      ≡ latest (new_log {Time = ℕ} 1).cap (event ∷ record event { time = 2 } ∷ []))
    × (0 < (new_log {Time = ℕ} 1).cap)
add_events-latest_example = add_events-latest 1 (event ∷ record event { time = 2 } ∷ [])

reply_to-dashboard_example :
    let (method, at) = method_and_target (request_line (codes "GET /?t=ab12 HTTP/1.1")) in
    (reply_to (codes "ab12") (codes "GET /?t=ab12 HTTP/1.1") ≡ dashboard) ↔ (
      (method ≡ codes "GET")
      × (has_sub (codes "..") at ≡ false)
      × ((split_target at).0 ≡ codes "/")
      × (first_param (codes "t=") (pieces (split_target at).1) ≡ some (codes "ab12")))
reply_to-dashboard_example = reply_to-dashboard (codes "ab12") (codes "GET /?t=ab12 HTTP/1.1")
