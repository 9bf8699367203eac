-- ===== src/Robots.antt =====
-- src/robots_txt.cpp. The member functions of `RobotsTxt` lock a mutex around each use of
-- `domains_`; the model runs them one after another. The fetcher is the function `fetch`, `none`
-- for a failed fetch.
pub mod Verdict
pub mod Policy
pub mod Cache
use shadow_se.Base.{
  ℕ, zero, suc, ◌+◌, Bool, true, false, ◌&&◌, ◌||◌, Option, none, some, List, [], ◌∷◌, ◌++◌, ltb,
  leb, ◌==◌, if◌then◌else◌, length, drop, Bytes, codes, same_bytes, is_empty, starts_with, has_sub,
  cut, cut_sub, span_until, trim, lower_ascii,
}

-- (allow, path)
pub record Rule : Type 0 where
  pub allow : Bool
  pub path : Bytes

pub record DomainRules : Type 0 where
  pub loaded : Bool
  pub rules : List Rule

pub record RobotsTxt : Type 0 where
  pub ua : Bytes
  pub domains : List (Bytes × DomainRules)

unfoldable pub before_comment : Option (Bytes × Bytes) → Bytes → Bytes
before_comment none line = line
before_comment (some (a, b)) line = a

unfoldable pub strip_comment : Bytes → Bytes
unfolding before_comment
strip_comment line = before_comment (cut b'#' line) line

-- The ends of a host and of a path: `find_first_of("/?#")`, `find_first_of("?#")`.
abbrev pub ends_host : ℕ → Bool
ends_host c = c == b'/' || c == b'?' || c == b'#'

abbrev pub ends_path : ℕ → Bool
ends_path c = c == b'?' || c == b'#'

-- The scheme before "://" and the text behind it.
unfoldable pub split_scheme : Bytes → Option (Bytes × Bytes)
split_scheme url = elim (cut_sub (codes "://") url) [
  | none ↦ none
  | some (scheme, rest) ↦ some (scheme, drop 3 rest)
]

unfoldable pub origin_of : Bytes → Bytes
origin_of url = elim (split_scheme url) [
  | none ↦ []
  | some (scheme, rest) ↦
      let host = (span_until ends_host rest).0 in
      if is_empty host then [] else scheme ++ (codes "://" ++ lower_ascii host)
]

-- `pathOf` from the first '/' behind the scheme on.
unfoldable pub path_from : Bytes → Bytes
path_from [] = codes "/"
path_from (c ∷ s) = (span_until ends_path (c ∷ s)).0

unfoldable pub path_of : Bytes → Bytes
path_of url = elim (split_scheme url) [
  | none ↦ codes "/"
  | some (scheme, rest) ↦ path_from (span_until (λ c. c == b'/') rest).1
]

-- `std::getline` until the stream ends.
unfoldable pub lines_from : Bytes → Bytes → List Bytes
lines_from [] [] = []
lines_from (c ∷ line) [] = (c ∷ line) ∷ []
lines_from line (c ∷ s) =
    let next = lines_from [] s in
    let more = lines_from (line ++ c ∷ []) s in if c == b'\n' then line ∷ next else more

-- The local state of `parseBody`.
pub record Parse : Type 0 where
  pub matching : Bool
  pub group : List Rule
  pub rules : List Rule

unfoldable pub flush_group : Parse → Parse
flush_group p =
    if p.matching
    then record { matching = false; group = []; rules = p.rules ++ p.group }
    else record p { matching = false }

-- Key and value of a line; without a ':' both are the whole line.
unfoldable pub key_value : Bytes → Bytes × Bytes
key_value line = elim (cut b':' line) [
  | none ↦ (trim (lower_ascii line), trim line)
  | some (a, b) ↦ (trim (lower_ascii a), trim b)
]

unfoldable pub matches_agent : Bytes → Bytes → Bool
matches_agent our agent = same_bytes agent (codes "*") || has_sub agent our || has_sub our agent

unfoldable pub add_rule : Bool → Bytes → Parse → Parse
add_rule allow [] p = p
add_rule allow (c ∷ value) p =
    if p.matching
    then record p { group = p.group ++ record { allow = allow; path = c ∷ value } ∷ [] }
    else p

-- A line with its comment and spaces taken off, which is not empty.
unfoldable pub parse_directive : Bytes → Bytes × Bytes → Parse → Parse
parse_directive our (key, value) p =
    if same_bytes key (codes "user-agent")
    then record (flush_group p) { matching = matches_agent our (lower_ascii value) }
    else if same_bytes key (codes "allow")
    then add_rule true value p
    else if same_bytes key (codes "disallow")
    then add_rule false value p
    else p

unfoldable pub parse_line : Bytes → Bytes → Parse → Parse
parse_line our raw p =
    let line = trim (strip_comment raw) in
    if is_empty line then p else parse_directive our (key_value line) p

unfoldable pub parse_lines : Bytes → List Bytes → Parse → Parse
parse_lines our [] p = p
parse_lines our (l ∷ ls) p = parse_lines our ls (parse_line our l p)

abbrev pub parse_start : Parse
parse_start = record { matching = false; group = []; rules = [] }

unfoldable pub parse_body : Bytes → Bytes → DomainRules
parse_body ua body =
    let p = parse_lines (lower_ascii ua) (lines_from [] body) parse_start in
    record { loaded = true; rules = (flush_group p).rules }

unfoldable pub find_domain : Bytes → List (Bytes × DomainRules) → Option DomainRules
find_domain origin [] = none
find_domain origin ((o, r) ∷ ds) = if same_bytes o origin then some r else find_domain origin ds

-- Whether some entry of the origin is loaded.
unfoldable pub is_loaded : Bytes → List (Bytes × DomainRules) → Bool
is_loaded origin [] = false
is_loaded origin ((o, r) ∷ ds) = same_bytes o origin && r.loaded || is_loaded origin ds

unfoldable pub store_domain :
    Bytes → DomainRules → List (Bytes × DomainRules) → List (Bytes × DomainRules)
store_domain origin rules [] = (origin, rules) ∷ []
store_domain origin rules ((o, r) ∷ ds) =
    if same_bytes o origin then (o, rules) ∷ ds else (o, r) ∷ store_domain origin rules ds

unfoldable pub rules_of_fetch : Bytes → Option Bytes → DomainRules
rules_of_fetch ua none = record { loaded = true; rules = [] }
rules_of_fetch ua (some body) = parse_body ua body

-- `loadDomain`, with the URLs that it fetches.
unfoldable pub load_domain : (Bytes → Option Bytes) → RobotsTxt → Bytes → RobotsTxt × List Bytes
load_domain fetch t url =
    let origin = origin_of url in
    if is_empty origin then (t, []) else if is_loaded origin t.domains then (t, []) else (
      record t {
        domains =
            store_domain origin (rules_of_fetch t.ua (fetch (origin ++ codes "/robots.txt")))
              t.domains;
      },
      (origin ++ codes "/robots.txt") ∷ [],
    )

unfoldable pub has_rules : RobotsTxt → Bytes → Bool
has_rules t url = elim (find_domain (origin_of url) t.domains) [
  | none ↦ false
  | some r ↦ elim r.rules [ [] ↦ false | _ ∷ _ ↦ r.loaded ]
]

-- The local variables of the loop in `allowed`.
pub record Best : Type 0 where
  pub len : ℕ
  pub allow : Bool
  pub matched : Bool

unfoldable pub weigh : Bytes → Rule → Best → Best
weigh path r b =
    if leb b.len (length r.path) && starts_with r.path path
    then (if ltb b.len (length r.path)
        then record { len = length r.path; allow = r.allow; matched = true }
        else record b { allow = r.allow || b.allow; matched = true })
    else b

unfoldable pub weigh_all : Bytes → List Rule → Best → Best
weigh_all path [] b = b
weigh_all path (r ∷ rs) b = weigh_all path rs (weigh path r b)

abbrev pub best_start : Best
best_start = record { len = 0; allow = true; matched = false }

-- `allowed` from the rules of the origin on.
unfoldable pub verdict : Bytes → List Rule → Bool
verdict path [] = true
verdict path (r ∷ rs) =
    let b = weigh_all path (r ∷ rs) best_start in if b.matched then b.allow else true

unfoldable pub rules_of : Option DomainRules → List Rule
rules_of none = []
rules_of (some r) = r.rules

unfoldable pub allowed : RobotsTxt → Bytes → Bool
unfolding rules_of
allowed t url = verdict (path_of url) (rules_of (find_domain (origin_of url) t.domains))
