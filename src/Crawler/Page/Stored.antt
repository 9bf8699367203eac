-- ===== src/Crawler/Page/Stored.antt =====
-- src/crawler.cpp: `process` and the index.
use shadow_se.Base.{
  ℕ, ◌+◌, ◌^◌, ◌<◌, ◌≡◌, refl, inl, inr, Bool, true, false, Bool-cases, some, ◌∷◌, [], Bytes, codes,
  All, ◌++◌, has_sub, starts_with, arith,
}
use shadow_se.Base.Map.{find-put, same_refl, nat_key}
use shadow_se.Document.{Document}
use shadow_se.Robots.{RobotsTxt, origin_of, load_domain, allowed}
use shadow_se.Index.{InvertedIndex, add_document, store_document, document}
use shadow_se.Index.Store.{stamped}
use shadow_se.Index.Valid.{IsValid, add_document-IsValid}
use shadow_se.Html.Strip.Clean.{IsText, strip_tags-IsText}
use shadow_se.Crawler.{Options}
use shadow_se.Crawler.Page.{
  FetchResult, Site, page_document, report, consult, is_robots_url, is_checked, keep_page, visit,
  process,
}

-- A document that is added stands under the id that is returned.
add_document-document :
    (doc : Document) (t : InvertedIndex)
    → document (add_document doc t).0 (add_document doc t).1
      ≡ some (stamped (add_document doc t).0 doc)
unfolding add_document document store_document
add_document-document doc t =
    let id = (add_document doc t).0 in rw (find-put, same_refl {K = ℕ} id) refl

has_sub-behind : (p a s : Bytes) → has_sub p s ≡ true → has_sub p (a ++ s) ≡ true
unfolding has_sub
has_sub-behind p [] s h = h
has_sub-behind p (c ∷ a) s h = ground (arith, has_sub-behind p a s h)

names_robots :
    (origin : Bytes) → has_sub (codes "robots.txt") (origin ++ codes "/robots.txt") ≡ true
names_robots origin =
    has_sub-behind (codes "robots.txt") origin (codes "/robots.txt")
      (unfold has_sub starts_with in refl)

module _ (hash : Bytes → ℕ) (o : Options) (obey : Bool) (fetch : Bytes → FetchResult) where
  -- While ids last, a visit keeps the index valid, whatever was fetched.
  visit-IsValid :
      (url : Bytes) (depth : ℕ) (s : Site)
      → IsValid s.index
      → s.index.next_id + 1 < 2 ^ 64
      → IsValid (visit hash o obey fetch url depth s).index
  unfolding visit keep_page report
  visit-IsValid url depth s v room = elim (Bool-cases (fetch url).ok) [
    | inl h ↦ rw h (add_document-IsValid (page_document url depth (fetch url).html) s.index v room)
    | inr h ↦ rw h v
  ]

  -- While ids last, `process` keeps the index valid, whatever is fetched and whatever the policies say.
  pub process-IsValid :
      (url : Bytes) (depth : ℕ) (s : Site)
      → IsValid s.index
      → s.index.next_id + 1 < 2 ^ 64
      → IsValid (process hash o obey fetch url depth s).index
  unfolding process report
  process-IsValid url depth s v room =
      let loaded = record s { robots = consult hash o obey fetch url s.robots } in
      elim (Bool-cases (is_checked hash o obey fetch url)) [
        | inl h ↦ elim (Bool-cases (allowed loaded.robots url)) [
          | inl k ↦ rw (h, k) (visit-IsValid url depth loaded v room)
          | inr k ↦ rw (h, k) v
        ]
        | inr h ↦ rw h (visit-IsValid url depth s v room)
      ]

  consult-same :
      (other : Bytes → FetchResult) (url : Bytes) (t : RobotsTxt)
      → ((u : Bytes) → is_robots_url u ≡ true → fetch u ≡ other u)
      → consult hash o obey other url t ≡ consult hash o obey fetch url t
  unfolding consult load_domain is_robots_url
  consult-same other url t same =
      let there = same (origin_of url ++ codes "/robots.txt") (names_robots (origin_of url)) in
      rw there refl

  -- A page that is checked and that the policy of its origin, loaded by then, disallows: what its address
  -- would answer has no effect. A fetcher that agrees on the addresses with `robots.txt` in them, and gives
  -- anything for all others, leads to the same state; and in that state the index, the frontier and the
  -- documents that were shown are as before, the policies are those that were consulted, and one error is reported.
  pub process-disallowed :
      (other : Bytes → FetchResult) (url : Bytes) (depth : ℕ) (s : Site)
      → ((u : Bytes) → is_robots_url u ≡ true → fetch u ≡ other u)
      → is_checked hash o obey fetch url ≡ true
      → allowed (consult hash o obey fetch url s.robots) url ≡ false
      → (process hash o obey other url depth s ≡ process hash o obey fetch url depth s)
        × (process hash o obey fetch url depth s ≡ record s {
          robots = consult hash o obey fetch url s.robots;
          errors = (url, codes "blocked by robots.txt") ∷ s.errors;
        })
  unfolding process report is_checked
  process-disallowed other url depth s same h k =
      (rw (consult-same other url s.robots same, h, k) refl, rw (h, k) refl)

  visit-stored :
      (url : Bytes) (depth : ℕ) (s : Site)
      → (fetch url).ok ≡ true
      → (id : ℕ) × (d : Document) × (document id (visit hash o obey fetch url depth s).index
          ≡ some d)
        × (d.url ≡ url)
        × (d.depth ≡ depth)
        × All IsText d.content
  unfolding visit keep_page page_document
  visit-stored url depth s h =
      let html = (fetch url).html in
      let doc = page_document url depth html in
      let id = (add_document doc s.index).0 in
      (
        id,
        stamped id doc,
        rw h (add_document-document doc s.index),
        refl,
        refl,
        strip_tags-IsText html,
      )

  -- A page that is fetched, and that the policy of its origin allows if it is checked, is in the
  -- index afterwards: a document under its URL, with its depth, and without markup in its content.
  pub process-stored :
      (url : Bytes) (depth : ℕ) (s : Site)
      → (fetch url).ok ≡ true
      → (is_checked hash o obey fetch url ≡ true
          → allowed (consult hash o obey fetch url s.robots) url ≡ true)
      → (id : ℕ) × (d : Document) × (document id (process hash o obey fetch url depth s).index
          ≡ some d)
        × (d.url ≡ url)
        × (d.depth ≡ depth)
        × All IsText d.content
  unfolding process
  process-stored url depth s ok open_to_all =
      let loaded = record s { robots = consult hash o obey fetch url s.robots } in
      elim (Bool-cases (is_checked hash o obey fetch url)) [
        | inl h ↦ rw (h, open_to_all h) (visit-stored url depth loaded ok)
        | inr h ↦ rw h (visit-stored url depth s ok)
      ]
