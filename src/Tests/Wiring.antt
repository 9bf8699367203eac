-- ===== src/Tests/Wiring.antt =====
-- src/web_server.cpp, src/admin.cpp, src/tor_proxy.cpp and the constructor of src/engine.cpp on concrete runs.
use shadow_se.Base.{
  ℕ, ◌+◌, ◌≤◌, ◌≡◌, ◌≢◌, refl, sym, ◌∙◌, subst, arith, true, Option, none, some, List, [], ◌∷◌,
  ◌==◌, if◌then◌else◌, length, All, Bytes, codes, starts_with, cut_sub, cut, span_until, is_space,
  skip_space,
}
use shadow_se.Bloom
use shadow_se.Index
use shadow_se.Index.{InvertedIndex}
use shadow_se.Crawler
use shadow_se.TorPool.{TorEndpoint, no_endpoint}
use shadow_se.Web.{
  Scored, handle_client, read_head, request_line, method_and_target, next_word, split_target,
  pieces, first_param,
}
use shadow_se.Web.Responses.{answer_client}
use shadow_se.Web.Responses.Delivered.{response_text, answer_client-delivered}
use shadow_se.Web.Connections.{Server, idle, accept_client, end_client}
use shadow_se.Web.Connections.Capped.{Reach, here, next, accepted, ended, clients, Reach-bounded}
use shadow_se.Wire.Delivery.{IsProgressing}
use shadow_se.TorProxy.{up, down, ready, Answers, probe_tor}
use shadow_se.TorProxy.Reachable.{is_reachable, closes, opens, probe_tor-IsReachable}
use shadow_se.TorArgs.{
  default_config, parse_proxy_list, parse_tor_flag, decimal_from, signed_number,
}
use shadow_se.Json.Scanner.{not_digit, digits, skip_ws, is_ws}
use shadow_se.Engine.Startup.{endpoints_of}
use shadow_se.Engine.Startup.Endpoints.{IsPrinted, given_or, endpoints_of-parse_tor_flag}
use shadow_se.Admin.{add, new_log}
use shadow_se.Admin.Dashboard.{Glance, AdminOptions, answer_admin}
use shadow_se.Admin.Dashboard.Secret.{token_sent, answer_admin-secret}

abbrev unary : ℕ → Bytes
unary n = codes "n"

-- One byte at a time.
abbrev slowly : ℕ → ℕ → Option ℕ
slowly k n = some 1

slowly-IsProgressing : IsProgressing slowly
slowly-IsProgressing k n h = (1, refl, omega arith, h)

abbrev request : List Bytes
request = codes "GET /?t=wrong HT" ∷ codes "TP/1.1\r\nHost: a\r\n\r\n" ∷ []

abbrev nothing_found : Bytes → List (Scored ℕ)
nothing_found query = []

answer_client-delivered_example :
    answer_client unary unary slowly nothing_found 16384 256 (codes "T") request
    ≡ response_text unary (handle_client unary unary nothing_found 16384 256 (codes "T") request)
answer_client-delivered_example =
    answer_client-delivered unary slowly unary nothing_found 16384 256 (codes "T") request
      slowly-IsProgressing

abbrev busy : Server
busy = accept_client 1 8 (accept_client 1 7 idle)

abbrev after : Server
after = end_client 7 [] busy

Reach-after : Reach 1 after
unfolding accept_client
Reach-after = next (next (next here (accepted idle 7)) (accepted _ 8)) (ended busy [] 7 [] refl)

Reach-bounded_example :
    (length after.handling ≤ 1)
    × (after.active ≡ length after.handling)
    × (clients 1 Reach-after
        ≡ length after.handling + length after.turned_away + length after.served)
Reach-bounded_example = Reach-bounded 1 Reach-after (omega arith)

-- A peer that wants a password.
abbrev picky : Answers
picky = record {
  socket_error = none;
  is_address = true;
  connect_error = none;
  waited = ready;
  refused = none;
  sent = 3;
  received = 5 ∷ 255 ∷ [];
  elapsed = 4;
}

probe_tor-IsReachable_example :
    ((probe_tor unary (codes "127.0.0.1") 9050 1500 picky).0.status
      ≡ (if is_reachable picky then up else down))
    × (closes (probe_tor unary (codes "127.0.0.1") 9050 1500 picky).1
        ≡ opens (probe_tor unary (codes "127.0.0.1") 9050 1500 picky).1)
probe_tor-IsReachable_example = probe_tor-IsReachable unary (codes "127.0.0.1") 9050 1500 picky

abbrev show_port : ℕ → Bytes
show_port n = if n == 9050 then codes "9050" else codes "9051"

abbrev flag : Bytes
flag = codes "a:9050, b:9051,c"

abbrev first_proxy : TorEndpoint
first_proxy = record no_endpoint { host = codes "a"; port = 9050 }

abbrev second_proxy : TorEndpoint
second_proxy = record no_endpoint { host = codes "b"; port = 9051 }

flag_proxies : parse_proxy_list (flag ∷ []) ≡ first_proxy ∷ second_proxy ∷ []
unfolding parse_proxy_list signed_number digits span_until not_digit skip_space is_space skip_ws
    is_ws
flag_proxies = refl

ports-IsPrinted :
    All (λ (ep : TorEndpoint). IsPrinted (show_port ep.port) ep.port) (parse_proxy_list (flag ∷ []))
unfolding decimal_from not_digit
ports-IsPrinted = rw flag_proxies (
  ((refl, (refl, (refl, (refl, tt)))), refl, refl),
  (((refl, (refl, (refl, (refl, tt)))), refl, refl), tt),
)

endpoints_of-parse_tor_flag_example :
    endpoints_of (parse_tor_flag show_port (codes "--tor-proxy") flag default_config).1
    ≡ given_or (endpoints_of default_config) (parse_proxy_list (flag ∷ []))
endpoints_of-parse_tor_flag_example =
    endpoints_of-parse_tor_flag show_port flag default_config ports-IsPrinted

abbrev opts : AdminOptions
opts = record { token = codes "right"; refresh_seconds = 5; page_title = codes "A & B" }

abbrev quiet : Glance ℕ
quiet = record {
  tor = record { status = down; detail = []; elapsed = 3 };
  onion_file = none;
  engine = record {
    index = Index.empty;
    crawler = Crawler.make (Bloom.make 128 3);
    fetcher_name = codes "stub";
    last_tor = down;
  };
  log = new_log 5;
}

-- An event with a text that looks like a tag, and an onion address.
abbrev eventful : Glance ℕ
eventful = record quiet {
  onion_file = some (codes "a.onion\n");
  log =
      add (record { time = 1; kind = codes "error"; url = codes "http://a"; text = codes "<b>" })
        quiet.log;
}

abbrev show_index : InvertedIndex → Bytes
show_index t = codes "0.0"

request_head : read_head 8192 [] request ≡ some (codes "GET /?t=wrong HTTP/1.1\r\nHost: a")
unfolding read_head cut_sub starts_with
request_head = refl

wrong_token : token_sent (codes "GET /?t=wrong HTTP/1.1\r\nHost: a") ≢ some (codes "right")
unfolding request_line method_and_target next_word split_target pieces first_param cut cut_sub
    starts_with span_until is_space
wrong_token e = ground (arith, e)

from_some : (s t : Bytes) → some s ≡ some t → s ≡ t
from_some s t e = cc

answer_admin-secret_example :
    answer_admin unary unary show_index opts slowly request quiet
    ≡ answer_admin unary unary show_index opts slowly request eventful
answer_admin-secret_example =
    answer_admin-secret unary unary show_index opts slowly request quiet eventful (λ head e.
      subst (λ (h : Bytes). token_sent h ≢ some (codes "right"))
        (from_some (codes "GET /?t=wrong HTTP/1.1\r\nHost: a") head (sym request_head ∙ e))
        wrong_token)
