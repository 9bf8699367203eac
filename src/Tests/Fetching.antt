-- ===== src/Tests/Fetching.antt =====
-- src/fetcher.cpp and `process` of src/crawler.cpp on concrete runs.
use shadow_se.Base.{
  ℕ, zero, suc, Bool, if◌then◌else◌, ◌≡◌, refl, true, false, Option, some, [], ◌∷◌, All, Bytes,
  codes, has_sub, cut_sub, starts_with, span_until, same_bytes, lower_ascii, lower_byte,
}
use shadow_se.Bloom
use shadow_se.Bloom.{fnv1a}
use shadow_se.Document.{Document}
use shadow_se.Index.{empty, document}
use shadow_se.Robots.{
  allowed, has_rules, origin_of, split_scheme, find_domain, verdict, weigh_all, weigh, path_of,
  path_from,
}
use shadow_se.Html.Strip.Clean.{IsText}
use shadow_se.Crawler.{Options, make}
use shadow_se.Crawler.Page.{FetchResult, Site, is_robots_url, consult, is_checked, process}
use shadow_se.Crawler.Page.Stored.{process-disallowed, process-stored}
use shadow_se.TorPool.{TorEndpoint, no_endpoint, is_onion_url}
use shadow_se.Fetcher.{Transfer, timed_out, curl_ok, Request, fetch}
use shadow_se.Fetcher.Retry.{IsProxied, fetch-IsProxied}
use shadow_se.Fetcher.Managers.{Single, single_manager, fetch-down}

abbrev options : Options
options = record { worker_count = 2; max_pages = 10; max_depth = 1 }

abbrev site : Site
site = record {
  robots = record { ua = codes "shadow"; domains = [] };
  index = empty;
  crawler = make (Bloom.make 128 3);
  errors = [];
  documents = [];
}

-- The policy of the origin is loaded and has the one rule for all paths.
abbrev with_rule : Bool → Site
with_rule allow = record site {
  robots = record site.robots {
    domains =
        (
          codes "http://a",
          record { loaded = true; rules = record { allow = allow; path = codes "/" } ∷ [] },
        )
        ∷ [];
  };
}

abbrev served : Bytes → FetchResult
served url = record { ok = true; html = codes "<title>T</title><p>text</p>"; error = [] }

abbrev address : Bytes
address = codes "http://a/x"

checked : is_checked fnv1a options true served address ≡ true
unfolding is_checked has_sub starts_with
checked = refl

policy :
    (allow : Bool)
    → allowed (consult fnv1a options true served address (with_rule allow).robots) address ≡ allow
unfolding consult has_rules origin_of split_scheme cut_sub span_until find_domain same_bytes
    lower_ascii lower_byte allowed verdict weigh_all weigh path_of path_from starts_with
policy true = refl
policy false = refl

-- The page and every other one but the policies is down.
abbrev broken : Bytes → FetchResult
broken url =
    if is_robots_url url then served url else record { ok = false; html = []; error = codes "down" }

same_policies : (u : Bytes) → is_robots_url u ≡ true → served u ≡ broken u
same_policies u h = rw h refl

process-disallowed_example :
    (process fnv1a options true broken address 0 (with_rule false)
      ≡ process fnv1a options true served address 0 (with_rule false))
    × (process fnv1a options true served address 0 (with_rule false) ≡ record (with_rule false) {
      robots = consult fnv1a options true served address (with_rule false).robots;
      errors = (address, codes "blocked by robots.txt") ∷ site.errors;
    })
process-disallowed_example =
    process-disallowed fnv1a options true served broken address 0 (with_rule false) same_policies
      checked (policy false)

process-stored_example :
    (id : ℕ) × (d : Document) × (document id
        (process fnv1a options true served address 0 (with_rule true)).index
      ≡ some d)
    × (d.url ≡ address)
    × (d.depth ≡ 0)
    × All IsText d.content
process-stored_example =
    process-stored fnv1a options true served address 0 (with_rule true) refl (λ e. policy true)

abbrev decimal : ℕ → Bytes
decimal n = codes "9050"

abbrev tor : TorEndpoint
tor = record no_endpoint { host = codes "127.0.0.1"; port = 9050 }

abbrev routed : Single
routed = record { ep = tor; up = true }

abbrev unrouted : Single
unrouted = record { ep = tor; up = false }

-- The first transfer times out, the second succeeds.
abbrev network : ℕ → Request → Option Transfer
network zero request =
    some (record { code = timed_out; status = 0; body = []; message = codes "timeout" })
network (suc attempt) request =
    some (record { code = curl_ok; status = 200; body = codes "page"; message = [] })

abbrev no_latency : ℕ → ℕ
no_latency attempt = 0

abbrev hidden : Bytes
hidden = codes "http://abc.onion/"

fetch-IsProxied_example :
    All IsProxied (fetch decimal (single_manager 2) network no_latency hidden routed).requests
unfolding is_onion_url has_sub
fetch-IsProxied_example =
    fetch-IsProxied decimal (single_manager 2) network no_latency hidden routed refl

fetch-down_example :
    ((fetch decimal (single_manager 2) network no_latency hidden unrouted).result.ok ≡ false)
    × ((fetch decimal (single_manager 2) network no_latency hidden unrouted).requests ≡ [])
    × ((fetch decimal (single_manager 2) network no_latency hidden unrouted).manager ≡ unrouted)
unfolding is_onion_url has_sub
fetch-down_example = fetch-down decimal network no_latency 2 hidden unrouted refl refl
