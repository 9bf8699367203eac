-- ===== src/Crawler/Run.antt =====
-- Any number of workers and callers, step by step. A world is the crawler with the items that its
-- workers hold and, for the statements, the items that were taken so far.
use shadow_se.Base.{
  ℕ, ◌+◌, ◌^◌, ◌≤◌, ◌<◌, Bool, true, false, not, ◌&&◌, Option, some, List, [], ◌∷◌, ◌++◌, ltb, leb,
  if◌then◌else◌, length, length-append, Bytes, same_bytes_iff, ◌≡◌, refl, ap, ◌∙◌, arith,
  Bool-cases, inl, inr,
}
use shadow_se.Bloom.{BloomFilter}
use shadow_se.Crawler.{
  Options, Item, Crawler, member, pop_from, priority_of, start_workers, accept, enqueue, take_from,
  take_item, finish_item, request_stop, make,
}
use shadow_se.Crawler.Order.{
  count_items, count_urls, count_items-pop_from, length-pop_from, count_items-append,
  count_urls_absent,
}

pub record World : Type 0 where
  pub crawler : Crawler
  pub active : List Item
  pub taken : List Item

module _ (hash : Bytes → ℕ) (o : Options) where
  pub data Step : World → World → Type 0 where
    enqueued :
        (w : World) (url : Bytes) (depth : ℕ) (priority : Option ℕ)
        → Step w (record w { crawler = (enqueue hash o url depth priority w.crawler).1 })
    took :
        (w : World) (item : Item) (c : Crawler)
        → take_item w.crawler ≡ some (item, c)
        → length w.active < w.crawler.workers
        → Step w (record { crawler = c; active = item ∷ w.active; taken = item ∷ w.taken })
    finished :
        (w : World) (xs : List Item) (item : Item) (ys : List Item)
        → w.active ≡ xs ++ item ∷ ys
        → Step w (record w { crawler = finish_item w.crawler; active = xs ++ ys })
    stopped : (w : World) → Step w (record w { crawler = request_stop w.crawler })

  pub data Reach (s : World) : World → Type 0 where
    here : Reach s s
    next : {v w : World} → Reach s v → Step v w → Reach s w

  -- The page cap, the counters, and each URL at most once.
  pub record IsSafe (w : World) : Type 0 where
    pub balance : w.crawler.pending ≡ length w.crawler.queue + length w.active
    pub capped : w.crawler.crawled + w.crawler.pending ≤ o.max_pages
    pub processed : length w.taken ≡ w.crawler.crawled + length w.active
    pub once : (u : Bytes) → count_urls u w.crawler.seen ≤ 1
    pub known :
        (u : Bytes)
        → count_items u w.taken + count_items u w.crawler.queue ≡ count_urls u w.crawler.seen

  accept-IsSafe :
      (w : World) (url : Bytes) (depth : ℕ) (priority : Option ℕ)
      → IsSafe w
      → member url w.crawler.seen ≡ false
      → leb o.max_pages (w.crawler.crawled + w.crawler.pending) ≡ false
      → IsSafe (record w { crawler = accept hash o url depth priority w.crawler })
  unfolding accept start_workers
  accept-IsSafe w url depth priority v new room = record {
    balance = omega (
      arith,
      v.balance,
      length-append w.crawler.queue (
          record {
            url = url;
            depth = depth;
            priority = priority_of priority depth;
            seq = w.crawler.seq;
          }
          ∷ []),
    );
    capped = ground (arith, v.capped);
    processed = v.processed;
    once = λ u.
        unfold count_urls in
        ground (arith, v.once u, count_urls_absent url w.crawler.seen new, same_bytes_iff url u);
    known = λ u. rw count_items-append (unfold count_urls count_items in omega (arith, v.known u));
  }

  -- What decides whether a URL is taken up.
  abbrev pub admits : Bytes → Crawler → Bool
  admits url c = not c.stop && ltb (c.crawled + c.pending) o.max_pages && not (member url c.seen)

  -- A URL is accepted exactly if the crawler is not stopped, the page cap is not reached and the
  -- exact set lacks the URL: the Bloom filter, whatever it holds, changes no answer. A refusal
  -- changes nothing.
  pub enqueue_lem :
      (url : Bytes) (depth : ℕ) (priority : Option ℕ) (c : Crawler)
      → enqueue hash o url depth priority c
        ≡ (if admits url c then (true, accept hash o url depth priority c) else (false, c))
  unfolding enqueue
  enqueue_lem url depth priority c = ground arith

  enqueued-IsSafe :
      (w : World) (url : Bytes) (depth : ℕ) (priority : Option ℕ)
      → IsSafe w
      → IsSafe (record w { crawler = (enqueue hash o url depth priority w.crawler).1 })
  enqueued-IsSafe w url depth priority v = elim (Bool-cases (admits url w.crawler)) [
    | inl yes_ ↦
        simp (enqueue_lem, yes_)
          (accept-IsSafe w url depth priority v (ground arith) (ground arith))
    | inr no_ ↦ simp (enqueue_lem, no_) v
  ]

  took_from-IsSafe :
      (w : World) (item : Item) (c : Crawler) (q : List Item)
      → w.crawler.queue ≡ q
      → take_from q w.crawler ≡ some (item, c)
      → IsSafe w
      → IsSafe (record { crawler = c; active = item ∷ w.active; taken = item ∷ w.taken })
  unfolding take_from
  took_from-IsSafe w item c [] e f v = absurd (cc)
  took_from-IsSafe w item c (a ∷ items) e f v =
      let top = (pop_from a items).0 in
      let rest = (pop_from a items).1 in
      let i : item ≡ top = cc in
      let k : c ≡ record w.crawler { queue = rest } = cc in
      rw (i, k)
        (record {
          balance = omega (arith, v.balance, ap length e, length-pop_from a items);
          capped = v.capped;
          processed = omega (arith, v.processed);
          once = v.once;
          known = λ u.
              unfold count_items in
              omega (arith, v.known u, ap (count_items u) e, count_items-pop_from u a items);
        })

  finished-IsSafe :
      (w : World) (xs : List Item) (item : Item) (ys : List Item)
      → o.max_pages < 2 ^ 64
      → w.active ≡ xs ++ item ∷ ys
      → IsSafe w
      → IsSafe (record w { crawler = finish_item w.crawler; active = xs ++ ys })
  unfolding finish_item
  finished-IsSafe w xs item ys word e v =
      let here = ap length e ∙ length-append xs (item ∷ ys) in
      record {
        balance = omega (arith, v.balance, v.capped, here, length-append xs ys);
        capped = omega (arith, v.balance, v.capped, here);
        processed = omega (arith, v.processed, here, length-append xs ys);
        once = v.once;
        known = v.known;
      }

  Step-IsSafe : {w x : World} → o.max_pages < 2 ^ 64 → Step w x → IsSafe w → IsSafe x
  Step-IsSafe word (enqueued w url depth priority) v = enqueued-IsSafe w url depth priority v
  Step-IsSafe word (took w item c e free) v =
      took_from-IsSafe w item c w.crawler.queue refl (unfold take_item in e) v
  Step-IsSafe word (finished w xs item ys e) v = finished-IsSafe w xs item ys word e v
  Step-IsSafe word (stopped w) v =
      unfold request_stop in
      record {
        balance = v.balance;
        capped = v.capped;
        processed = v.processed;
        once = v.once;
        known = v.known;
      }

  Reach-IsSafe : {s w : World} → o.max_pages < 2 ^ 64 → IsSafe s → Reach s w → IsSafe w
  Reach-IsSafe word v here = v
  Reach-IsSafe word v (next r st) = Step-IsSafe word st (Reach-IsSafe word v r)

  abbrev pub initial : BloomFilter → World
  initial bloom = record { crawler = make bloom; active = []; taken = [] }

  initial-IsSafe : (bloom : BloomFilter) → IsSafe (initial bloom)
  unfolding make count_urls count_items
  initial-IsSafe bloom = record {
    balance = refl;
    capped = omega arith;
    processed = refl;
    once = λ u. omega arith;
    known = λ u. refl;
  }

  -- However workers and callers interleave from a new crawler, with `max_pages` on 64 bits,
  -- crawled and pending pages together stay under the cap, `pending` counts the queued and the
  -- active items, and the items taken so far are the crawled and the active ones.
  pub Reach-capped :
      {w : World} (bloom : BloomFilter)
      → o.max_pages < 2 ^ 64
      → Reach (initial bloom) w
      → (w.crawler.crawled + w.crawler.pending ≤ o.max_pages)
        × (w.crawler.pending ≡ length w.crawler.queue + length w.active)
        × (length w.taken ≡ w.crawler.crawled + length w.active)
  Reach-capped bloom word r =
      let v = Reach-IsSafe word (initial-IsSafe bloom) r in (v.capped, v.balance, v.processed)

  -- However workers and callers interleave from a new crawler, with `max_pages` on 64 bits, each
  -- URL was taken or is queued at most once, both counted together.
  pub Reach-once :
      {w : World} (bloom : BloomFilter) (u : Bytes)
      → o.max_pages < 2 ^ 64
      → Reach (initial bloom) w
      → count_items u w.taken + count_items u w.crawler.queue ≤ 1
  Reach-once bloom u word r =
      let v = Reach-IsSafe word (initial-IsSafe bloom) r in omega (arith, v.known u, v.once u)
