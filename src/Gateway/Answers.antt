-- ===== src/Gateway/Answers.antt =====
-- src/gateway.cpp: what a client reads, and what a request can do.
use shadow_se.Base.{
  ℕ, ◌≡◌, refl, inl, inr, ◌⊎◌, false, Bool-cases, Option, none, some, [], ◌∷◌, Bytes, codes,
  is_empty,
}
use shadow_se.Crawler.{Options}
use shadow_se.Ranking.{Reals}
use shadow_se.Json.{Value, Numbers, boolean, assign, dump}
use shadow_se.Json
use shadow_se.Json.Parse.{Outcome, parse}
use shadow_se.Html.Links.Resolved.{IsWeb}
use shadow_se.Engine.{Engine, normalize_url, crawl}
use shadow_se.Engine.Urls.{normalize_url-IsWeb}
use shadow_se.Gateway.{
  Response, body_object, invalid_body, enqueue_url, handle_crawl, crawl_from, post_crawl,
  string_or_empty,
}

address-IsWeb : (url : Bytes) → is_empty url ≡ false → (url ≡ []) ⊎ IsWeb url → IsWeb url
address-IsWeb [] h k = absurd (cc)
address-IsWeb (c ∷ url) h (inl e) = absurd (cc)
address-IsWeb (c ∷ url) h (inr web) = web

module _ {D : Type 0} (numbers : Numbers D) (reals : Reals D) (k1 b : D) (max_query : ℕ)
    (to_string : ℕ → Bytes) where
  module _ (hash : Bytes → ℕ) (o : Options) where
    -- What a request to crawl comes to: an error and an unchanged engine, or the enqueuing of one
    -- address that starts with `http://` or `https://`.
    abbrev pub IsCrawlAnswer : Engine → Response × Engine → Type 0
    IsCrawlAnswer e answer =
        ((answer.0.status ≡ 400) × (answer.1 ≡ e))
        ⊎ ((answer.0.status ≡ 200)
            × ((url : Bytes) × IsWeb url × (answer.1 ≡ (crawl hash o url e).1)))

    handle_crawl-IsCrawlAnswer :
        (raw : Bytes) (e : Engine)
        → IsCrawlAnswer e (handle_crawl numbers reals k1 b max_query to_string hash o raw e)
    unfolding handle_crawl enqueue_url
    handle_crawl-IsCrawlAnswer raw e = elim (Bool-cases (is_empty (normalize_url raw))) [
      | inl none_left ↦ rw none_left (inl (refl, refl))
      | inr some_left ↦ rw some_left (
          inr (
            refl,
            (
              normalize_url raw,
              address-IsWeb (normalize_url raw) some_left (normalize_url-IsWeb raw),
              refl,
            ),
          ))
    ]

    crawl_from-IsCrawlAnswer :
        (outcome : Outcome D) (found : Option (Value D)) (e : Engine)
        → IsCrawlAnswer e (crawl_from numbers reals k1 b max_query to_string hash o outcome found e)
    unfolding crawl_from invalid_body
    crawl_from-IsCrawlAnswer outcome none e = inl (refl, refl)
    crawl_from-IsCrawlAnswer outcome (some found) e =
        handle_crawl-IsCrawlAnswer (string_or_empty (Json.find (codes "url") found)) e

    -- Whatever the body of a request to crawl is, the answer is an error that leaves the engine as it is, or
    -- one address that starts with `http://` or `https://` was handed to the crawler and nothing else was done.
    pub post_crawl-IsCrawlAnswer :
        (body : Bytes) (e : Engine)
        → IsCrawlAnswer e (post_crawl numbers reals k1 b max_query to_string hash o body e)
    unfolding post_crawl
    post_crawl-IsCrawlAnswer body e =
        let outcome = parse numbers body in crawl_from-IsCrawlAnswer outcome (body_object outcome) e
