-- ===== src/Crawler/Ends.antt =====
-- src/crawler.cpp: every crawl comes to an end. The work of a run is the number of its steps that accept,
-- take or finish an item.
use shadow_se.Base.{
  ℕ, ◌+◌, ◌*◌, ◌^◌, ◌≤◌, ◌<◌, ◌≡◌, refl, sym, ap, ◌∙◌, subst, ◌⊎◌, inl, inr, Bool, true, false,
  Bool-cases, Option, some, List, [], ◌∷◌, ◌++◌, if◌then◌else◌, length, length-append, Bytes, arith,
}
use shadow_se.Bloom.{BloomFilter}
use shadow_se.Crawler.{
  Options, Item, Crawler, priority_of, start_workers, accept, enqueue, pop_from, take_from,
  take_item, finish_item, request_stop, make,
}
use shadow_se.Crawler.Order.{length-pop_from}
use shadow_se.Crawler.Run.{
  World, Step, enqueued, took, finished, stopped, Reach, here, next, initial, admits, enqueue_lem,
  Reach-capped,
}

-- What is left to do with the items at hand.
abbrev pub items_left : World → ℕ
items_left w = 2 * length w.crawler.queue + length w.active

module _ (hash : Bytes → ℕ) (o : Options) where
  abbrev pub step_work : {v w : World} → Step hash o v w → ℕ
  step_work (enqueued w url depth priority) =
      if (enqueue hash o url depth priority w.crawler).0 then 1 else 0
  step_work (took w item c e free) = 1
  step_work (finished w xs item ys e) = 1
  step_work (stopped w) = 0

  abbrev pub work : {s w : World} → Reach hash o s w → ℕ
  work here = 0
  work (next r st) = work r + step_work st

  -- There is someone to do what is pending.
  record IsStaffed (w : World) : Type 0 where
    running : w.crawler.running ≡ false → w.crawler.pending ≡ 0
    staffed : w.crawler.running ≡ true → 1 ≤ w.crawler.workers

  accept-IsStaffed :
      (w : World) (url : Bytes) (depth : ℕ) (priority : Option ℕ)
      → IsStaffed w
      → IsStaffed (record w { crawler = accept hash o url depth priority w.crawler })
  unfolding accept start_workers
  accept-IsStaffed w url depth priority v = record {
    running = λ h. cc;
    staffed = λ h. ground (arith, v.staffed);
  }

  enqueued-IsStaffed :
      (w : World) (url : Bytes) (depth : ℕ) (priority : Option ℕ)
      → IsStaffed w
      → IsStaffed (record w { crawler = (enqueue hash o url depth priority w.crawler).1 })
  enqueued-IsStaffed w url depth priority v = elim (Bool-cases (admits hash o url w.crawler)) [
    | inl e ↦ simp (enqueue_lem, e) (accept-IsStaffed w url depth priority v)
    | inr e ↦ simp (enqueue_lem, e) v
  ]

  took_from-keeps :
      (c : Crawler) (q : List Item) {item : Item} {c' : Crawler}
      → take_from q c ≡ some (item, c')
      → (c' ≡ record c { queue = c'.queue }) × (length q ≡ length c'.queue + 1)
  unfolding take_from
  took_from-keeps c [] h = absurd (cc)
  took_from-keeps c (a ∷ items) {item} {c'} h =
      let e : c' ≡ record c { queue = (pop_from a items).1 } = cc in
      rw e (refl, omega (arith, length-pop_from a items))

  took_from-IsStaffed :
      (w : World) (item : Item) (c : Crawler)
      → take_from w.crawler.queue w.crawler ≡ some (item, c)
      → IsStaffed w
      → IsStaffed (record { crawler = c; active = item ∷ w.active; taken = item ∷ w.taken })
  took_from-IsStaffed w item c e v =
      let k = (took_from-keeps w.crawler w.crawler.queue e).0 in
      record {
        running = λ h.
            ap (λ (c : Crawler). c.pending) k
            ∙ v.running (sym (ap (λ (c : Crawler). c.running) k) ∙ h);
        staffed = λ h.
            subst (λ n. 1 ≤ n) (sym (ap (λ (c : Crawler). c.workers) k))
              (v.staffed (sym (ap (λ (c : Crawler). c.running) k) ∙ h));
      }

  finished-IsStaffed :
      (w : World) (xs : List Item) (item : Item) (ys : List Item)
      → w.active ≡ xs ++ item ∷ ys
      → w.crawler.pending ≡ length w.crawler.queue + length w.active
      → IsStaffed w
      → IsStaffed (record w { crawler = finish_item w.crawler; active = xs ++ ys })
  unfolding finish_item
  finished-IsStaffed w xs item ys e b v = record {
    running =
        λ h. absurd (omega (arith, v.running h, b, ap length e ∙ length-append xs (item ∷ ys)));
    staffed = v.staffed;
  }

  Step-IsStaffed :
      {v w : World}
      → Step hash o v w
      → v.crawler.pending ≡ length v.crawler.queue + length v.active
      → IsStaffed v
      → IsStaffed w
  Step-IsStaffed (enqueued w url depth priority) b v = enqueued-IsStaffed w url depth priority v
  Step-IsStaffed (took w item c e free) b v = took_from-IsStaffed w item c (unfold take_item in e) v
  Step-IsStaffed (finished w xs item ys e) b v = finished-IsStaffed w xs item ys e b v
  Step-IsStaffed (stopped w) b v =
      unfold request_stop in record { running = v.running; staffed = v.staffed }

  accept-left :
      (w : World) (url : Bytes) (depth : ℕ) (priority : Option ℕ)
      → 1
          + items_left (record w { crawler = accept hash o url depth priority w.crawler })
          + 3 * (w.crawler.crawled + w.crawler.pending)
        ≡ items_left w
          + 3
            * ((accept hash o url depth priority w.crawler).crawled
                + (accept hash o url depth priority w.crawler).pending)
  unfolding accept start_workers
  accept-left w url depth priority = omega (
    arith,
    length-append w.crawler.queue (
        record {
          url = url;
          depth = depth;
          priority = priority_of priority depth;
          seq = w.crawler.seq;
        }
        ∷ []),
  )

  enqueued-left :
      (w : World) (url : Bytes) (depth : ℕ) (priority : Option ℕ)
      → (if (enqueue hash o url depth priority w.crawler).0 then 1 else 0)
          + items_left (record w { crawler = (enqueue hash o url depth priority w.crawler).1 })
          + 3 * (w.crawler.crawled + w.crawler.pending)
        ≡ items_left w
          + 3
            * ((enqueue hash o url depth priority w.crawler).1.crawled
                + (enqueue hash o url depth priority w.crawler).1.pending)
  enqueued-left w url depth priority = elim (Bool-cases (admits hash o url w.crawler)) [
    | inl e ↦ simp (enqueue_lem, e) (accept-left w url depth priority)
    | inr e ↦ simp (enqueue_lem, e) (omega arith)
  ]

  took-left :
      (w : World) (item : Item) (c : Crawler)
      → take_from w.crawler.queue w.crawler ≡ some (item, c)
      → (length w.crawler.queue ≡ length c.queue + 1)
        × (c.crawled ≡ w.crawler.crawled)
        × (c.pending ≡ w.crawler.pending)
  took-left w item c e =
      let (k, n) = took_from-keeps w.crawler w.crawler.queue e in
      (n, ap (λ (c : Crawler). c.crawled) k, ap (λ (c : Crawler). c.pending) k)

  finished-left :
      (w : World) (xs : List Item) (item : Item) (ys : List Item)
      → w.active ≡ xs ++ item ∷ ys
      → w.crawler.crawled + w.crawler.pending < 2 ^ 64
      → w.crawler.pending ≡ length w.crawler.queue + length w.active
      → ((finish_item w.crawler).crawled + (finish_item w.crawler).pending
          ≡ w.crawler.crawled + w.crawler.pending)
        × (length w.active ≡ length (xs ++ ys) + 1)
        × ((finish_item w.crawler).queue ≡ w.crawler.queue)
  unfolding finish_item
  finished-left w xs item ys e cap_ b =
      let here_ = ap length e ∙ length-append xs (item ∷ ys) in
      (omega (arith, here_), omega (arith, here_, length-append xs ys), refl)

  Step-left :
      {v w : World} (st : Step hash o v w)
      → v.crawler.crawled + v.crawler.pending < 2 ^ 64
      → v.crawler.pending ≡ length v.crawler.queue + length v.active
      → step_work st + items_left w + 3 * (v.crawler.crawled + v.crawler.pending)
        ≡ items_left v + 3 * (w.crawler.crawled + w.crawler.pending)
  Step-left (enqueued w url depth priority) room b = enqueued-left w url depth priority
  Step-left (took w item c e free) room b =
      let (n, p, q) = took-left w item c (unfold take_item in e) in omega (arith, n, p, q)
  Step-left (finished w xs item ys e) room b =
      let (n, p, q) = finished-left w xs item ys e room b in omega (arith, n, p, ap length q)
  Step-left (stopped w) room b = unfold request_stop in omega arith

  abbrev pub by_worker : {v w : World} → Step hash o v w → Bool
  by_worker (enqueued w url depth priority) = false
  by_worker (took w item c e free) = true
  by_worker (finished w xs item ys e) = true
  by_worker (stopped w) = false

  -- Nothing is pending, or a worker can take an item or finish one.
  abbrev pub CanGoOn : World → Type 0
  CanGoOn w =
      (w.crawler.pending ≡ 0) ⊎ ((x : World) × (st : Step hash o w x) × (by_worker st ≡ true))

  can_take :
      (w : World) (q : List Item)
      → w.crawler.queue ≡ q
      → w.active ≡ []
      → w.crawler.pending ≡ length w.crawler.queue + length w.active
      → IsStaffed w
      → CanGoOn w
  unfolding take_from
  can_take w [] e f b v = inl (omega (arith, b, ap length e, ap length f))
  can_take w (a ∷ items) e f b v =
      let top = pop_from a items in
      let c : Crawler = record w.crawler { queue = top.1 } in
      let found : take_item w.crawler ≡ some (top.0, c) = unfold take_item in rw e refl in
      let free : length w.active < w.crawler.workers = elim (Bool-cases w.crawler.running) [
        | inl h ↦ omega (arith, v.staffed h, ap length f)
        | inr h ↦ absurd (omega (arith, v.running h, b, ap length e))
      ] in
      inr (_, took w top.0 c found free, refl)

  can_go_on :
      (w : World) (active : List Item)
      → w.active ≡ active
      → w.crawler.pending ≡ length w.crawler.queue + length w.active
      → IsStaffed w
      → CanGoOn w
  can_go_on w [] e b v = can_take w w.crawler.queue refl e b v
  can_go_on w (item ∷ items) e b v = inr (_, finished w [] item items e, refl)

  Reach-IsStaffed :
      (bloom : BloomFilter) {w : World}
      → o.max_pages < 2 ^ 64
      → Reach hash o (initial hash o bloom) w
      → IsStaffed w
  unfolding make
  Reach-IsStaffed bloom word here = record { running = λ h. refl; staffed = λ h. cc }
  Reach-IsStaffed bloom word (next r st) =
      Step-IsStaffed st (Reach-capped hash o bloom word r).1 (Reach-IsStaffed bloom word r)

  work-left :
      (bloom : BloomFilter) {w : World} (word : o.max_pages < 2 ^ 64)
      (r : Reach hash o (initial hash o bloom) w)
      → work r + items_left w ≡ 3 * (w.crawler.crawled + w.crawler.pending)
  unfolding make
  work-left bloom word here = refl
  work-left bloom word (next r st) =
      let (cap_, b, n) = Reach-capped hash o bloom word r in
      omega (arith, work-left bloom word r, Step-left st (omega (arith, cap_, word)) b)

  -- However workers and callers interleave from a new crawler, with `max_pages` on 64 bits, at most three
  -- times `max_pages` steps accept, take or finish an item, and as long as an item is pending a worker
  -- can take one or finish one: so a crawl comes to its end, whatever the pages link to.
  pub work-le :
      {w : World} (bloom : BloomFilter) (r : Reach hash o (initial hash o bloom) w)
      → o.max_pages < 2 ^ 64
      → (work r ≤ 3 * o.max_pages) × CanGoOn w
  work-le {w} bloom r word =
      let (cap_, b, n) = Reach-capped hash o bloom word r in
      (
        omega (arith, cap_, work-left bloom word r),
        can_go_on w w.active refl b (Reach-IsStaffed bloom word r),
      )
