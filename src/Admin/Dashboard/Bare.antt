-- ===== src/Admin/Dashboard/Bare.antt =====
-- src/admin.cpp: what the texts of the dashboard can do to it.
use shadow_se.Base.{ℕ, suc, ◌≡◌, refl, ap, true, false, some, List, [], ◌∷◌, map, length, Bytes}
use shadow_se.Web.Escape.{inert}
use shadow_se.Web.Page.{occurrences, bare_query, occurrences-append, occurrences-escape_html}
use shadow_se.Engine.{Engine, pending_crawls, crawled_pages, crawler_busy}
use shadow_se.TorProxy.{TorProbeResult}
use shadow_se.Admin.{ActivityEvent}
use shadow_se.Index.{InvertedIndex}
use shadow_se.Admin.Dashboard.{
  first_line, Glance, AdminOptions, onion_hostname, onion_card, render_top, render_site,
  render_engine, render_crawler, render_event, render_events, render_activity, render_no_activity,
  render_dashboard,
}
use shadow_se.Admin.Dashboard.Sections.{plain_card}

-- An event without its texts.
unfoldable pub bare_event : {Time : Type 0} → ActivityEvent Time → ActivityEvent Time
bare_event ev = record ev { url = []; text = [] }

-- The texts that come from outside, taken out; an onion address keeps one letter.
unfoldable pub bare_glance : {Time : Type 0} → Glance Time → Glance Time
bare_glance g = record g {
  onion_file = some (bare_query (onion_hostname g.onion_file));
  engine = record g.engine { fetcher_name = [] };
  log = record g.log { events = map bare_event g.log.events };
}

length-bare_event :
    {Time : Type 0} (evs : List (ActivityEvent Time)) → length (map bare_event evs) ≡ length evs
length-bare_event [] = refl
length-bare_event (ev ∷ evs) = ap suc (length-bare_event evs)

first_line-bare : (onion : Bytes) → first_line (bare_query onion) ≡ bare_query onion
unfolding first_line bare_query
first_line-bare [] = refl
first_line-bare (c ∷ s) = refl

render_crawler-bare :
    (show_count : ℕ → Bytes) (e : Engine)
    → render_crawler show_count e ≡ render_crawler show_count (record e { fetcher_name = [] })
unfolding render_crawler crawled_pages pending_crawls crawler_busy
render_crawler-bare show_count e = refl

module _ (show_count : ℕ → Bytes) (c : ℕ) (special : inert c ≡ false) where
  render_top-bare :
      (opts : AdminOptions)
      → occurrences c (render_top show_count opts)
        ≡ occurrences c (render_top show_count (record opts { page_title = [] }))
  unfolding render_top
  render_top-bare opts = simp (occurrences-append, occurrences-escape_html c special)

  onion_card-bare :
      (onion : Bytes)
      → occurrences c (onion_card onion) ≡ occurrences c (onion_card (bare_query onion))
  unfolding onion_card bare_query
  onion_card-bare [] = refl
  onion_card-bare (x ∷ s) = simp (occurrences-append, occurrences-escape_html c special)

  render_engine-bare :
      (average : Bytes) (e : Engine)
      → occurrences c (render_engine show_count average e)
        ≡ occurrences c (render_engine show_count average (record e { fetcher_name = [] }))
  unfolding render_engine plain_card
  render_engine-bare average e = simp (occurrences-append, occurrences-escape_html c special)

  render_site-bare :
      (tor : TorProbeResult) (onion : Bytes)
      → occurrences c (render_site show_count tor onion)
        ≡ occurrences c (render_site show_count tor (bare_query onion))
  unfolding render_site
  render_site-bare tor onion = simp (occurrences-append, onion_card-bare onion)

  module _ {Time : Type 0} (show_time : Time → Bytes) where
    render_event-bare :
        (ev : ActivityEvent Time)
        → occurrences c (render_event show_count show_time ev)
          ≡ occurrences c (render_event show_count show_time (bare_event ev))
    unfolding render_event bare_event
    render_event-bare ev = simp (occurrences-append, occurrences-escape_html c special)

    render_events-bare :
        (evs : List (ActivityEvent Time))
        → occurrences c (render_events show_count show_time evs)
          ≡ occurrences c (render_events show_count show_time (map bare_event evs))
    unfolding render_events
    render_events-bare [] = refl
    render_events-bare (ev ∷ evs) =
        simp (occurrences-append, render_event-bare ev, render_events-bare evs)

    render_activity-bare :
        (evs : List (ActivityEvent Time))
        → occurrences c (render_activity show_count show_time evs)
          ≡ occurrences c (render_activity show_count show_time (map bare_event evs))
    unfolding render_activity
    render_activity-bare evs =
        simp (occurrences-append, render_events-bare evs) (rw length-bare_event refl)

    render_no_activity-bare :
        (evs : List (ActivityEvent Time))
        → render_no_activity show_count show_time evs
          ≡ render_no_activity show_count show_time (map bare_event evs)
    unfolding render_no_activity
    render_no_activity-bare [] = refl
    render_no_activity-bare (ev ∷ evs) = refl

    -- The texts of the events, the title, the onion address and the fetcher's name add no `<`, `>`, `"` or `'`
    -- to the dashboard: it has as many of each as the dashboard without those texts, whatever is printed for a
    -- count, a time and the average length.
    pub render_dashboard-bare :
        (average : InvertedIndex → Bytes) (opts : AdminOptions) (g : Glance Time)
        → occurrences c (render_dashboard show_count show_time average opts true g)
          ≡ occurrences c (
              render_dashboard show_count show_time average
                (record opts { page_title = [] })
                true
                (bare_glance g))
    unfolding render_dashboard bare_glance
    render_dashboard-bare average opts g = simp (
      first_line-bare (onion_hostname g.onion_file),
      occurrences-append,
      render_top-bare opts,
      render_site-bare g.tor (onion_hostname g.onion_file),
      render_engine-bare (average g.engine.index) g.engine,
      render_crawler-bare show_count g.engine,
      render_activity-bare g.log.events,
      render_no_activity-bare g.log.events,
    )
