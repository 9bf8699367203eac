-- ===== src/Robots/Cache.antt =====
-- The cache of policies: what is loaded for an origin decides its URLs, and no others.
use shadow_se.Base.{
  true, false, Option, none, some, List, [], ◌∷◌, ◌++◌, if◌then◌else◌, leb, Bytes, codes,
  same_bytes, same_bytes_iff, is_empty, ◌≡◌, ◌≢◌, refl, ◌∙◌, arith, All, Bool-cases, inl, inr,
}
use shadow_se.Robots.{
  DomainRules, RobotsTxt, find_domain, is_loaded, store_domain, rules_of_fetch, rules_of,
  load_domain, parse_body, allowed, origin_of, path_of, verdict,
}
use shadow_se.Robots.Verdict.{HasPath, longest, verdict-longest}
use shadow_se.Robots.Policy.{parse_body-HasPath}

find_domain-store_domain :
    (o o' : Bytes) (r : DomainRules) (ds : List (Bytes × DomainRules))
    → find_domain o' (store_domain o r ds) ≡ (if same_bytes o o' then some r else find_domain o' ds)
unfolding find_domain store_domain
find_domain-store_domain o o' r [] = refl
find_domain-store_domain o o' r ((k, x) ∷ ds) = ground (
  arith,
  find_domain-store_domain o o' r ds,
  same_bytes_iff k o,
  same_bytes_iff k o',
  same_bytes_iff o o',
)

is_loaded-store_domain :
    (o : Bytes) (r : DomainRules) (ds : List (Bytes × DomainRules))
    → r.loaded ≡ true
    → is_loaded o (store_domain o r ds) ≡ true
unfolding is_loaded store_domain
is_loaded-store_domain o r [] h = ground (arith, same_bytes_iff o o)
is_loaded-store_domain o r ((k, x) ∷ ds) h =
    ground (arith, is_loaded-store_domain o r ds h, same_bytes_iff k o)

loaded-rules_of_fetch : (ua : Bytes) (o : Option Bytes) → (rules_of_fetch ua o).loaded ≡ true
unfolding rules_of_fetch parse_body
loaded-rules_of_fetch ua none = refl
loaded-rules_of_fetch ua (some body) = refl

-- Every cached rule has a path.
abbrev pub IsSound : List (Bytes × DomainRules) → Type 0
IsSound [] = Unit
IsSound ((o, r) ∷ ds) = All HasPath r.rules × IsSound ds

rules_of_fetch-HasPath : (ua : Bytes) (o : Option Bytes) → All HasPath (rules_of_fetch ua o).rules
unfolding rules_of_fetch
rules_of_fetch-HasPath ua none = tt
rules_of_fetch-HasPath ua (some body) = parse_body-HasPath ua body

store_domain-IsSound :
    (o : Bytes) (r : DomainRules) (ds : List (Bytes × DomainRules))
    → All HasPath r.rules
    → IsSound ds
    → IsSound (store_domain o r ds)
unfolding store_domain
store_domain-IsSound o r [] h v = (h, tt)
store_domain-IsSound o r ((k, x) ∷ ds) h v = elim (Bool-cases (same_bytes k o)) [
  | inl same ↦ rw same (h, v.1)
  | inr other ↦ rw other (v.0, store_domain-IsSound o r ds h v.1)
]

-- If every cached rule has a non-empty path, the same holds after a load, whatever is fetched.
pub load_domain-IsSound :
    (fetch : Bytes → Option Bytes) (t : RobotsTxt) (url : Bytes)
    → IsSound t.domains
    → IsSound (load_domain fetch t url).0.domains
unfolding load_domain
load_domain-IsSound fetch t url v = elim (Bool-cases (is_empty (origin_of url))) [
  | inl nowhere ↦ rw nowhere v
  | inr a ↦ rw a (elim (Bool-cases (is_loaded (origin_of url) t.domains)) [
    | inl known ↦ rw known v
    | inr new ↦ rw new (store_domain-IsSound _ _ t.domains (rules_of_fetch-HasPath t.ua _) v)
  ])
]

rules_of-find_domain-HasPath :
    (o : Bytes) (ds : List (Bytes × DomainRules))
    → IsSound ds
    → All HasPath (rules_of (find_domain o ds))
unfolding find_domain rules_of
rules_of-find_domain-HasPath o [] v = tt
rules_of-find_domain-HasPath o ((k, x) ∷ ds) v = elim (Bool-cases (same_bytes k o)) [
  | inl same ↦ rw same v.0
  | inr other ↦ rw other (rules_of-find_domain-HasPath o ds v.1)
]

-- If every cached rule has a non-empty path, a URL is allowed exactly if its longest matching
-- Disallow is no longer than its longest matching Allow, among its origin's rules.
pub allowed-longest :
    (t : RobotsTxt) (url : Bytes)
    → IsSound t.domains
    → let rules = rules_of (find_domain (origin_of url) t.domains) in
      allowed t url ≡ leb (longest false (path_of url) rules) (longest true (path_of url) rules)
unfolding allowed
allowed-longest t url v =
    verdict-longest (path_of url) _ (rules_of-find_domain-HasPath (origin_of url) t.domains v)

is_empty_ne : (s : Bytes) → s ≢ [] → is_empty s ≡ false
is_empty_ne [] h = absurd (h refl)
is_empty_ne (c ∷ s) h = refl

abbrev pub robots_url : Bytes → Bytes
robots_url url = origin_of url ++ codes "/robots.txt"

module _ (fetch : Bytes → Option Bytes) (t : RobotsTxt) (url : Bytes) (ne : origin_of url ≢ [])
    (new : is_loaded (origin_of url) t.domains ≡ false) where
  abbrev fetched : DomainRules
  fetched = rules_of_fetch t.ua (fetch (robots_url url))

  abbrev after : RobotsTxt
  after = record t { domains = store_domain (origin_of url) fetched t.domains }

  load_new : load_domain fetch t url ≡ (after, robots_url url ∷ [])
  unfolding load_domain
  load_new = simp (is_empty_ne (origin_of url) ne, new)

  load_again : load_domain fetch after url ≡ (after, [])
  unfolding load_domain
  load_again = simp (
    is_empty_ne (origin_of url) ne,
    is_loaded-store_domain (origin_of url) fetched t.domains (loaded-rules_of_fetch t.ua _),
  )

  allowed_new :
      (u : Bytes)
      → origin_of u ≡ origin_of url
      → allowed after u ≡ verdict (path_of u) fetched.rules
  unfolding allowed rules_of
  allowed_new u e =
      rw (e, find_domain-store_domain, (same_bytes_iff (origin_of url) (origin_of url)).1 refl)

  -- If a URL has an origin that was not loaded, loading it fetches the origin's robots.txt and
  -- nothing else; the policy that it holds decides every URL of the origin; and a second load
  -- changes nothing and fetches nothing.
  pub load_domain_first :
      (u : Bytes)
      → origin_of u ≡ origin_of url
      → ((load_domain fetch t url).1 ≡ robots_url url ∷ [])
        × (allowed (load_domain fetch t url).0 u
            ≡ verdict (path_of u) (rules_of_fetch t.ua (fetch (robots_url url))).rules)
        × (load_domain fetch (load_domain fetch t url).0 url ≡ ((load_domain fetch t url).0, []))
  load_domain_first u e = (rw load_new, rw load_new (allowed_new u e), rw load_new load_again)

  -- If a URL has an origin that was not loaded and its robots.txt cannot be fetched, then every
  -- URL of the origin is allowed after the load.
  pub load_domain_fail_open :
      (u : Bytes)
      → origin_of u ≡ origin_of url
      → fetch (robots_url url) ≡ none
      → allowed (load_domain fetch t url).0 u ≡ true
  load_domain_fail_open u e failed =
      rw load_new (allowed_new u e ∙ rw failed (unfold rules_of_fetch verdict in refl))

  -- Loading a URL whose origin was not loaded changes no verdict about a URL of another origin.
  pub allowed-load_domain_ne :
      (u : Bytes)
      → origin_of u ≢ origin_of url
      → allowed (load_domain fetch t url).0 u ≡ allowed t u
  allowed-load_domain_ne u other = rw load_new (
      unfold allowed in
      rw find_domain-store_domain (ground (arith, same_bytes_iff (origin_of url) (origin_of u))))
