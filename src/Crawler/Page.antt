-- ===== src/Crawler/Page.antt =====
-- src/crawler.cpp: what a worker does with one URL, `process`. A site is what a worker sees of the
-- crawler: the cached policies, the index, the frontier and the two callbacks' calls, last first.
-- `fetch` is the fetcher. The waits before a fetch have no other effect and are left out.
pub mod Stored
use shadow_se.Base.{
  ℕ, ◌+◌, ◌%◌, ◌^◌, Bool, true, false, not, ◌&&◌, Option, none, some, List, [], ◌∷◌, ltb, leb,
  if◌then◌else◌, drop, Bytes, codes, is_empty, has_sub, cut_sub, span_until,
}
use shadow_se.Document.{SourceType, clear_web, onion, Document}
use shadow_se.Robots.{RobotsTxt, has_rules, load_domain, allowed, ends_host}
use shadow_se.Index.{InvertedIndex, add_document}
use shadow_se.Html.{extract_title, extract_description}
use shadow_se.Html.Strip.{strip_tags}
use shadow_se.Html.Links.{extract_links}
use shadow_se.Crawler.{Options, Crawler, follow_links}

pub record FetchResult : Type 0 where
  pub ok : Bool
  pub html : Bytes
  pub error : Bytes

pub record Site : Type 0 where
  pub robots : RobotsTxt
  pub index : InvertedIndex
  pub crawler : Crawler
  pub errors : List (Bytes × Bytes)
  pub documents : List Document

unfoldable pub behind_scheme : Option (Bytes × Bytes) → Bytes → Bytes
behind_scheme none url = url
behind_scheme (some (scheme, rest)) url = drop 3 rest

unfoldable pub domain_of : Bytes → Bytes
domain_of url = elim (cut_sub (codes "://") url) [
  | none ↦ url
  | some (scheme, rest) ↦ (span_until ends_host (drop 3 rest)).0
]

unfoldable pub is_robots_url : Bytes → Bool
is_robots_url url = has_sub (codes "robots.txt") url

unfoldable pub source_of : Bytes → SourceType
unfolding behind_scheme
source_of url =
    if has_sub (codes ".onion") (behind_scheme (cut_sub (codes "://") url) url)
    then onion
    else clear_web

unfoldable pub title_of : Bytes → Bytes → Bytes
title_of url html = if is_empty (extract_title html) then url else extract_title html

unfoldable pub page_document : Bytes → ℕ → Bytes → Document
unfolding source_of title_of
page_document url depth html = record {
  id = 0;
  url = url;
  title = title_of url html;
  snippet = extract_description html;
  content = strip_tags html;
  source = source_of url;
  depth = depth;
}

unfoldable pub body_of : FetchResult → Option Bytes
body_of r = if r.ok then some r.html else none

-- `onErr_`
unfoldable pub report : Bytes → Bytes → Site → Site
report url message s = record s { errors = (url, message) ∷ s.errors }

module _ (hash : Bytes → ℕ) (o : Options) (obey : Bool) (fetch : Bytes → FetchResult) where
  -- The policy of the URL's origin is loaded if it has no rules yet.
  unfoldable pub consult : Bytes → RobotsTxt → RobotsTxt
  unfolding body_of
  consult url t = if has_rules t url then t else (load_domain (λ u. body_of (fetch u)) t url).0

  -- `opts_.obeyRobots && !isRobotsUrl(url)`
  unfoldable pub is_checked : Bytes → Bool
  unfolding is_robots_url
  is_checked url = obey && not (is_robots_url url)

  -- From the stored document on: the callback, and the links within the depth.
  unfoldable pub keep_page : Bytes → ℕ → Bytes → Site → Site
  unfolding page_document
  keep_page url depth html s =
      let doc = page_document url depth html in
      let (id, index) = add_document doc s.index in
      let next = (depth + 1) % 2 ^ 32 in
      record s {
        index = index;
        documents = record doc { id = id } ∷ s.documents;
        crawler =
            if leb next o.max_depth
            then follow_links hash o next (extract_links html url) s.crawler
            else s.crawler;
      }

  unfoldable pub visit : Bytes → ℕ → Site → Site
  unfolding keep_page report
  visit url depth s =
      let fetched = fetch url in
      if fetched.ok then keep_page url depth fetched.html s else report url fetched.error s

  unfoldable pub process : Bytes → ℕ → Site → Site
  unfolding consult is_checked visit
  process url depth s =
      let loaded = record s { robots = consult url s.robots } in
      if not (is_checked url)
      then visit url depth s
      else if allowed loaded.robots url
      then visit url depth loaded
      else report url (codes "blocked by robots.txt") loaded
