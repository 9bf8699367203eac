-- ===== src/Fetcher/Stub.antt =====
-- src/fetcher.cpp: `StubFetcher`. `codes` of a literal is its text.
use shadow_se.Base.{
  Bool, true, false, ◌||◌, Option, none, some, [], ◌∷◌, ◌++◌, ◌==◌, if◌then◌else◌, Bytes, codes,
  is_empty, starts_with, cut, cut_sub,
}
use shadow_se.Crawler.Page.{FetchResult, behind_scheme}

unfoldable pub before_slash : Option (Bytes × Bytes) → Bytes → Bytes
before_slash none s = s
before_slash (some (host, rest)) s = host

unfoldable pub stub_host : Bytes → Bytes
unfolding before_slash
stub_host url = let s = behind_scheme (cut_sub (codes "://") url) url in before_slash (cut b'/' s) s

-- The last match of `robots.txt`: whether it stands at the start or behind `/` or `?`.
unfoldable pub robots_mark : Bool → Bytes → Option Bool
robots_mark bounded [] = none
robots_mark bounded (c ∷ s) = elim (robots_mark (c == b'/' || c == b'?') s) [
  | some later ↦ some later
  | none ↦ if starts_with (codes "robots.txt") (c ∷ s) then some bounded else none
]

unfoldable pub is_robots : Bytes → Bool
unfolding robots_mark
is_robots url = elim (robots_mark true url) [ none ↦ false | some bounded ↦ bounded ]

unfoldable pub safe_host : Bytes → Bytes
unfolding stub_host
safe_host url = if is_empty (stub_host url) then codes "unknown" else stub_host url

unfoldable pub stub_html : Bytes → Bytes → Bytes
stub_html host url =
    codes "<!DOCTYPE html>\n<html><head>\n"
    ++ (codes "  <title>Stub Index: "
        ++ (host
            ++ (codes "</title>\n"
                ++ (codes "  <meta name=\"description\" content=\"Sample stub document for "
                    ++ (url
                        ++ (codes " generated by the Shadow SE offline fetcher.\">\n"
                            ++ (codes "</head><body>\n"
                                ++ (codes "  <h1>"
                                    ++ (host
                                        ++ (codes "</h1>\n"
                                            ++ (codes
                                                  "  <p>This deterministic sample page was produced by the Shadow SE stub "
                                                ++ (codes
                                                      "fetcher. It contains indexable telemetry text about "
                                                    ++ (host
                                                        ++ (codes
                                                            " and the shadow search engine index compression pipeline.</p>\n"
                                                            ++ (codes
                                                            "  <p>References: inverted index, bm25 ranking, tor routing, onion "
                                                            ++ (codes
                                                            "hidden services, sandbox parsing and threat intelligence feeds.</p>\n"
                                                            ++ (codes
                                                            "  <a href=\"/docs/a\">Document A</a>\n"
                                                            ++ (codes
                                                            "  <a href=\"/docs/b\">Document B</a>\n"
                                                            ++ (codes "  <a href=\"https://"
                                                            ++ (host
                                                            ++ (codes "/mirror\">Mirror</a>\n"
                                                            ++ codes
                                                            "</body></html>\n")))))))))))))))))))))

unfoldable pub stub_fetch : Bytes → FetchResult
unfolding is_robots safe_host stub_html
stub_fetch url =
    if is_robots url
    then record { ok = true; html = codes "User-agent: *\nAllow: /\n"; error = [] }
    else record { ok = true; html = stub_html (safe_host url) url; error = [] }
