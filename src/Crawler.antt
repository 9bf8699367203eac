-- ===== src/Crawler.antt =====
-- src/crawler.cpp: the frontier and the workers. Every access to the shared state stands under
-- `mtx_`, so `enqueue`, a worker's pop and a worker's last update are atomic steps. A priority is a
-- natural number here: `none` stands for a negative argument, which means "use the depth", and a
-- depth below 2 ^ 31 is its own `int`.
pub mod Order
pub mod Run
pub mod Page
pub mod Polite
pub mod Ends
use shadow_se.Base.{
  ℕ, zero, suc, ◌+◌, ◌-◌, ◌%◌, ◌^◌, Bool, true, false, not, ◌&&◌, ◌||◌, Option, none, some, List,
  [], ◌∷◌, ◌++◌, ltb, leb, ◌==◌, if◌then◌else◌, length, Bytes, same_bytes,
}
use shadow_se.Bloom
use shadow_se.Bloom.{BloomFilter}

pub record Options : Type 0 where
  pub worker_count : ℕ
  pub max_pages : ℕ
  pub max_depth : ℕ

pub record Item : Type 0 where
  pub url : Bytes
  pub depth : ℕ
  pub priority : ℕ
  pub seq : ℕ

pub record Crawler : Type 0 where
  pub queue : List Item
  pub seen : List Bytes
  pub bloom : BloomFilter
  pub workers : ℕ
  pub stop : Bool
  pub running : Bool
  pub pending : ℕ
  pub crawled : ℕ
  pub seq : ℕ

unfoldable pub member : Bytes → List Bytes → Bool
member u [] = false
member u (x ∷ xs) = same_bytes x u || member u xs

-- `ItemCompare`, as "a is popped before b".
unfoldable pub before : Item → Item → Bool
before a b = if a.priority == b.priority then ltb a.seq b.seq else ltb a.priority b.priority

-- `queue_.top()` and `queue_.pop()` on the items behind `a`: the first item, and the others.
unfoldable pub pop_from : Item → List Item → Item × List Item
pop_from a [] = (a, [])
pop_from a (b ∷ items) =
    let (top, rest) = pop_from (if before b a then b else a) items in
    (top, (if before b a then a else b) ∷ rest)

-- The priority of a new item.
unfoldable pub priority_of : Option ℕ → ℕ → ℕ
priority_of none depth = depth
priority_of (some p) depth = p

-- `max(1, workerCount)` threads are started by the first accepted URL.
unfoldable pub start_workers : Options → Crawler → Crawler
start_workers o c = record c {
  running = true;
  workers = if c.running then c.workers else if o.worker_count == 0 then 1 else o.worker_count;
}

module _ (hash : Bytes → ℕ) (o : Options) where
  -- The part of `enqueue` behind the duplicate test.
  unfoldable pub accept : Bytes → ℕ → Option ℕ → Crawler → Crawler
  accept url depth priority c = start_workers o (record c {
    seen = url ∷ c.seen;
    bloom = Bloom.insert hash c.bloom url;
    queue =
        c.queue
        ++ record { url = url; depth = depth; priority = priority_of priority depth; seq = c.seq }
          ∷ [];
    seq = c.seq + 1;
    pending = c.pending + 1;
  })

  unfoldable pub enqueue : Bytes → ℕ → Option ℕ → Crawler → Bool × Crawler
  enqueue url depth priority c =
      if c.stop
      then (false, c)
      else if leb o.max_pages (c.crawled + c.pending)
      then (false, c)
      else if Bloom.maybe_contains hash c.bloom url && member url c.seen
      then (false, c)
      else if member url c.seen
      then (false, c)
      else (true, accept url depth priority c)

  -- The loop over the links at the end of `process`: it ends at the first refused link.
  unfoldable pub follow_links : ℕ → List Bytes → Crawler → Crawler
  follow_links depth [] c = c
  follow_links depth (link ∷ links) c =
      let (accepted, c') = enqueue link depth (some depth) c in
      let rest = follow_links depth links c' in if accepted then rest else c'

-- `workerLoop` under the first lock: an item, or nothing yet.
unfoldable pub take_from : List Item → Crawler → Option (Item × Crawler)
take_from [] c = none
take_from (a ∷ items) c =
    let (top, rest) = pop_from a items in some (top, record c { queue = rest })

unfoldable pub take_item : Crawler → Option (Item × Crawler)
take_item c = take_from c.queue c

-- `workerLoop` under the second lock.
unfoldable pub finish_item : Crawler → Crawler
finish_item c = record c { pending = (c.pending + 2 ^ 64 - 1) % 2 ^ 64; crawled = c.crawled + 1 }

-- `stop` under its lock.
unfoldable pub request_stop : Crawler → Crawler
request_stop c = record c { stop = true }

-- The constructor.
unfoldable pub make : BloomFilter → Crawler
make bloom = record {
  queue = [];
  seen = [];
  bloom = bloom;
  workers = 0;
  stop = false;
  running = false;
  pending = 0;
  crawled = 0;
  seq = 0;
}
