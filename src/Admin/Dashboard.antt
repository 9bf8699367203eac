-- ===== src/Admin/Dashboard.antt =====
-- src/admin.cpp: the page of the dashboard, and a client from its request to what it is sent. The probe of
-- Tor, the hostname file, the text of a time and that of the average length are given.
pub mod Sections
pub mod Secret
pub mod Bare
use shadow_se.Base.{
  ℕ, Bool, true, false, Option, none, some, List, [], ◌∷◌, ◌++◌, ◌==◌, if◌then◌else◌, length, Bytes,
  codes, same_bytes, is_empty,
}
use shadow_se.Web.{escape_html}
use shadow_se.Wire.{send_both}
use shadow_se.TorProxy.{TorStatus, up, down, unknown, TorProbeResult}
use shadow_se.Index.{InvertedIndex, document_count, term_count}
use shadow_se.Engine.{Engine, pending_crawls, crawled_pages, crawler_busy}
use shadow_se.Admin.{
  ActivityEvent, ActivityLog, Reply, alive, unauthorized, dashboard, handle_admin,
}
use Sections.{plain_card, page_style, em_dash, middle_dot, arrow_right}

-- `readOnionHostname`, from the content of the file, if it can be read.
unfoldable pub first_line : Bytes → Bytes
first_line [] = []
first_line (c ∷ s) = let rest = first_line s in if c == 10 then [] else c ∷ rest

unfoldable pub onion_hostname : Option Bytes → Bytes
unfolding first_line
onion_hostname none = []
onion_hostname (some content) = first_line content

unfoldable pub kind_badge : Bytes → Bytes
kind_badge kind =
    if same_bytes kind (codes "indexed")
    then codes "<span style=\"color:#3fb950\">[INDEXED]</span>"
    else if same_bytes kind (codes "error")
    then codes "<span style=\"color:#f85149\">[ERROR]</span>"
    else codes "<span style=\"color:#58a6ff\">[INFO]</span>"

abbrev pub unauthorized_page : Bytes
unauthorized_page =
    codes
      "<!DOCTYPE html><html><head><meta charset=\"utf-8\"><title>Shadow SE Admin</title></head><body style=\"font-family:monospace;background:#0d1117;color:#c9d1d9\"><h1>401 Unauthorized</h1><p>This dashboard is admin-only. Reopen it with <code>?t=TOKEN</code> (the token is printed when the admin server starts).</p></body></html>"

unfoldable pub onion_card : Bytes → Bytes
onion_card [] =
    codes
      "<div class=\"v down\">not configured</div><div class=\"k\">run onion/setup.sh</div></div>\n"
onion_card (c ∷ s) =
    codes "<div class=\"v onion\">"
    ++ (escape_html (c ∷ s)
        ++ codes "</div><div class=\"k\">client-auth required to open</div></div>\n")

-- What the dashboard reads.
pub record Glance (Time : Type 0) : Type 0 where
  pub tor : TorProbeResult
  pub onion_file : Option Bytes
  pub engine : Engine
  pub log : ActivityLog Time

pub record AdminOptions : Type 0 where
  pub token : Bytes
  pub refresh_seconds : ℕ
  pub page_title : Bytes

module _ (show_count : ℕ → Bytes) where
  unfoldable pub tor_card : TorStatus → ℕ → Bytes
  tor_card up elapsed =
      codes
        "<div class=\"card\"><div class=\"k\">Tor SOCKS5</div><div class=\"v up\">UP</div><div class=\"k\">"
      ++ (show_count elapsed ++ codes " ms</div></div>\n")
  tor_card down elapsed =
      codes
        "<div class=\"card\"><div class=\"k\">Tor SOCKS5</div><div class=\"v down\">DOWN</div><div class=\"k\">darkweb routing off</div></div>\n"
  tor_card unknown elapsed =
      codes
        "<div class=\"card\"><div class=\"k\">Tor SOCKS5</div><div class=\"v warn\">UNKNOWN</div></div>\n"

  -- Up to the first section.
  unfoldable pub render_top : AdminOptions → Bytes
  render_top opts =
      codes "<!DOCTYPE html>\n<html lang=\"en\"><head><meta charset=\"utf-8\">\n<title>"
      ++ (escape_html opts.page_title
          ++ (codes "</title>\n<meta http-equiv=\"refresh\" content=\""
              ++ (show_count opts.refresh_seconds
                  ++ (page_style
                      ++ (codes "<h1>Shadow SE "
                          ++ (em_dash
                              ++ (codes
                                    " Admin Dashboard</h1>\n<p class=\"refresh\">auto-refreshes every "
                                  ++ (show_count opts.refresh_seconds
                                      ++ (codes "s "
                                          ++ (middle_dot
                                              ++ (codes " local admin only (127.0.0.1) "
                                                  ++ (middle_dot
                                                      ++ (codes " token-protected "
                                                          ++ (middle_dot
                                                            ++ (codes " <a href=\"/?t="
                                                            ++ (opts.token
                                                            ++ codes
                                                            "\">refresh now</a></p>\n"))))))))))))))))

  -- The sections on the site, the engine and the crawler.
  unfoldable pub render_site : TorProbeResult → Bytes → Bytes
  render_site tor onion =
      codes "<h2>Site &amp; Tor</h2>\n<div class=\"grid\">\n"
      ++ (tor_card tor.status tor.elapsed
          ++ (codes "<div class=\"card\"><div class=\"k\">Onion address (stealth)</div>\n"
              ++ (onion_card onion
                  ++ (codes
                        "<div class=\"card\"><div class=\"k\">Public web UI</div><div class=\"v up\">running</div><div class=\"k\">127.0.0.1:8080 "
                      ++ (arrow_right ++ codes " onion</div></div>\n</div>\n")))))

  unfoldable pub render_engine : Bytes → Engine → Bytes
  render_engine average e =
      codes "<h2>Engine core</h2>\n<div class=\"grid\">\n"
      ++ (plain_card (codes "Indexed documents") (show_count (document_count e.index))
          ++ (plain_card (codes "Distinct terms") (show_count (term_count e.index))
              ++ (plain_card (codes "Average doc length") average
                  ++ (plain_card (codes "Fetcher") (escape_html e.fetcher_name)
                      ++ codes "</div>\n"))))

  unfoldable pub render_crawler : Engine → Bytes
  render_crawler e =
      codes "<h2>Crawler</h2>\n<div class=\"grid\">\n"
      ++ (plain_card (codes "Crawled pages") (show_count (crawled_pages e))
          ++ (plain_card (codes "Pending queue") (show_count (pending_crawls e))
              ++ (plain_card (codes "Workers")
                    (if crawler_busy e then codes "running" else codes "idle")
                  ++ codes "</div>\n")))

  module _ {Time : Type 0} (show_time : Time → Bytes) where
    unfoldable pub render_event : ActivityEvent Time → Bytes
    render_event ev =
        codes "<tr><td>"
        ++ (show_time ev.time
            ++ (codes "</td><td>"
                ++ (kind_badge ev.kind
                    ++ (codes "</td><td>"
                        ++ (escape_html ev.url
                            ++ (codes "</td><td>"
                                ++ (escape_html ev.text ++ codes "</td></tr>\n")))))))

    unfoldable pub render_events : List (ActivityEvent Time) → Bytes
    render_events [] = []
    render_events (ev ∷ evs) = render_event ev ++ render_events evs

    unfoldable pub render_activity : List (ActivityEvent Time) → Bytes
    render_activity evs =
        codes "<h2>Recent activity ("
        ++ (show_count (length evs)
            ++ (codes
                  ")</h2>\n<table>\n<tr><th>time</th><th>type</th><th>url</th><th>detail</th></tr>\n"
                ++ (render_events evs ++ codes "</table>\n")))

    unfoldable pub render_no_activity : List (ActivityEvent Time) → Bytes
    render_no_activity (ev ∷ evs) = []
    render_no_activity [] =
        codes "<p class=\"refresh\">No activity yet "
        ++ (em_dash ++ codes " run <code>crawl &lt;url&gt;</code> in the terminal.</p>\n")

    module _ (show_average : InvertedIndex → Bytes) (opts : AdminOptions) where
      unfoldable pub render_dashboard : Bool → Glance Time → Bytes
      unfolding onion_hostname
      render_dashboard false g = unauthorized_page
      render_dashboard true g =
          render_top opts
          ++ (render_site g.tor (onion_hostname g.onion_file)
              ++ (render_engine (show_average g.engine.index) g.engine
                  ++ (render_crawler g.engine
                      ++ (render_activity g.log.events
                          ++ (render_no_activity g.log.events ++ codes "</body></html>\n")))))

      -- The header of `sendHtml`.
      unfoldable pub html_head : ℕ → Bytes → Bytes → Bytes
      html_head code reason body =
          codes "HTTP/1.1 "
          ++ (show_count code
              ++ (b' '
                  ∷ (reason
                      ++ (codes
                            "\r\nContent-Type: text/html; charset=utf-8\r\nCache-Control: no-store, no-cache, must-revalidate\r\nX-Content-Type-Options: nosniff\r\nX-Frame-Options: DENY\r\nContent-Length: "
                          ++ (show_count (length body) ++ codes "\r\nConnection: close\r\n\r\n")))))

      unfoldable pub send_html : (ℕ → ℕ → Option ℕ) → ℕ → Bytes → Bytes → Bytes
      send_html send code reason body = send_both send 0 (html_head code reason body) body

      unfoldable pub send_reply : (ℕ → ℕ → Option ℕ) → Glance Time → Option Reply → Bytes
      send_reply send g none = []
      send_reply send g (some alive) = send_html send 200 (codes "OK") (codes "ok")
      send_reply send g (some unauthorized) =
          send_html send 401 (codes "Unauthorized") (render_dashboard false g)
      send_reply send g (some dashboard) = send_html send 200 (codes "OK") (render_dashboard true g)

      -- `handleClient` with what goes out.
      unfoldable pub answer_admin : (ℕ → ℕ → Option ℕ) → List Bytes → Glance Time → Bytes
      answer_admin send chunks g = send_reply send g (handle_admin opts.token chunks)
