-- ===== src/Tests/Crawling.antt =====
-- src/crawler.cpp, src/bloom_filter.cpp and src/robots_txt.cpp on concrete runs.
use shadow_se.Base.{
  ◌≡◌, ◌≢◌, ◌≤◌, ◌+◌, ◌*◌, refl, arith, true, false, Option, none, some, List, [], ◌∷◌,
  if◌then◌else◌, leb, Bytes, codes, cut_sub, span_until,
}
use shadow_se.Base.Lists.{length}
use shadow_se.Bloom
use shadow_se.Bloom.{BloomFilter, fnv1a, maybe_contains}
use shadow_se.Bloom.Membership.{make-IsValid, insert_all, no_false_negative}
use shadow_se.Robots.{
  Rule, RobotsTxt, load_domain, allowed, origin_of, path_of, split_scheme, find_domain, rules_of,
}
use shadow_se.Robots.Verdict.{longest}
use shadow_se.Robots.Cache.{allowed-longest, load_domain-IsSound}
use shadow_se.Crawler.{
  make, member, start_workers, priority_of, Options, Item, pop_from, accept, enqueue, take_item,
  take_from, finish_item,
}
use shadow_se.Crawler.Order.{count_items}
use shadow_se.Crawler.Ends.{work, CanGoOn, work-le}
use shadow_se.Crawler.Run.{
  World, Reach, enqueued, took, finished, here, next, initial, admits, enqueue_lem, Reach-capped,
  Reach-once,
}

abbrev filter : BloomFilter
filter = Bloom.make 128 3

no_false_negative_example :
    maybe_contains fnv1a
      (insert_all fnv1a (Bloom.insert fnv1a filter (codes "a")) (codes "b" ∷ []))
      (codes "a")
    ≡ true
no_false_negative_example =
    no_false_negative fnv1a filter (codes "a") (codes "b" ∷ []) (make-IsValid 128 3)

abbrev rules : List Rule
rules =
    record { allow = false; path = codes "/x" } ∷ record { allow = true; path = codes "/x/y" } ∷ []

abbrev body : Bytes
body = codes "User-agent: *\nDisallow: /x\n"

abbrev robots : RobotsTxt
robots = record { ua = codes "shadow"; domains = [] }

abbrev serve : Bytes → Option Bytes
serve u = some body

abbrev fails : Bytes → Option Bytes
fails u = none

abbrev site : Bytes
site = codes "http://a/x"

allowed-longest_example :
    let after = (load_domain serve robots site).0 in
    let found = rules_of (find_domain (origin_of site) after.domains) in
    allowed after site
    ≡ leb (longest false (path_of site) found) (longest true (path_of site) found)
allowed-longest_example =
    allowed-longest (load_domain serve robots site).0 site
      (load_domain-IsSound serve robots site tt)

site_ne : origin_of site ≢ []
unfolding origin_of split_scheme cut_sub span_until
site_ne e = ground arith

abbrev options : Options
options = record { worker_count = 2; max_pages = 2; max_depth = 1 }

abbrev start : World
start = initial fnv1a options filter

abbrev queued : World
queued = record start { crawler = (enqueue fnv1a options (codes "u") 0 none start.crawler).1 }

abbrev first : Item
first = record { url = codes "u"; depth = 0; priority = 0; seq = 0 }

abbrev second : Item
second = record first { url = codes "v"; priority = 1; seq = 1 }

abbrev working : World
working = record {
  crawler = record queued.crawler { queue = [] };
  active = first ∷ [];
  taken = first ∷ [];
}

Reach-queued : Reach fnv1a options start queued
Reach-queued = next here (enqueued start (codes "u") 0 none)

Reach-working : Reach fnv1a options start working
unfolding enqueue accept take_item take_from make maybe_contains Bloom.make Bloom.replicate member
    start_workers pop_from priority_of
Reach-working = next Reach-queued (took queued first working.crawler refl (omega arith))

abbrev done : World
done = record working { crawler = finish_item working.crawler; active = [] }

Reach-done : Reach fnv1a options start done
Reach-done = next Reach-working (finished working [] first [] refl)

Reach-capped_example :
    (done.crawler.crawled + done.crawler.pending ≤ 2)
    × (done.crawler.pending ≡ length done.crawler.queue + length done.active)
    × (length done.taken ≡ done.crawler.crawled + length done.active)
Reach-capped_example = Reach-capped fnv1a options filter (omega arith) Reach-done

Reach-once_example :
    count_items (codes "u") done.taken + count_items (codes "u") done.crawler.queue ≤ 1
Reach-once_example = Reach-once fnv1a options filter (codes "u") (omega arith) Reach-done

enqueue_lem_example : enqueue fnv1a options (codes "u") 0 none queued.crawler ≡ (
    if admits fnv1a options (codes "u") queued.crawler
    then (true, accept fnv1a options (codes "u") 0 none queued.crawler)
    else (false, queued.crawler))
enqueue_lem_example = enqueue_lem fnv1a options (codes "u") 0 none queued.crawler

work-le_example : (work fnv1a options Reach-done ≤ 3 * 2) × CanGoOn fnv1a options done
work-le_example = work-le fnv1a options filter Reach-done (omega arith)
