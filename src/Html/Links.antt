-- ===== src/Html/Links.antt =====
-- src/crawler.cpp: `htmlExtractLinks`.
pub mod Resolved
use shadow_se.Base.{
  ℕ, zero, suc, Bool, true, false, not, ◌&&◌, ◌||◌, Option, none, some, List, [], ◌∷◌, ◌++◌, ◌==◌,
  if◌then◌else◌, length, drop, Bytes, codes, is_empty, same_bytes, starts_with, cut, cut_sub,
}
use shadow_se.Html.{attribute, tags_from}

-- The base URL: scheme, host and path.
pub record Base : Type 0 where
  pub scheme : Bytes
  pub host : Bytes
  pub path : Bytes

unfoldable pub split_host : Bytes → Bytes → Base
split_host scheme s = elim (cut b'/' s) [
  | none ↦ record { scheme = scheme; host = s; path = codes "/" }
  | some (host, rest) ↦ record { scheme = scheme; host = host; path = b'/' ∷ rest }
]

unfoldable pub split_base : Bytes → Base
unfolding split_host
split_base url = elim (cut_sub (codes "://") url) [
  | none ↦ record { scheme = []; host = []; path = [] }
  | some (scheme, rest) ↦ split_host scheme (drop 3 rest)
]

-- The path up to its last `/`, if it has one.
unfoldable pub to_last_slash : Bytes → Option Bytes
to_last_slash [] = none
to_last_slash (c ∷ s) = elim (to_last_slash s) [
  | some p ↦ some (c ∷ p)
  | none ↦ if c == b'/' then some (c ∷ []) else none
]

unfoldable pub directory : Bytes → Bytes
directory path = elim (to_last_slash path) [ none ↦ codes "/" | some p ↦ p ]

unfoldable pub is_http : Bytes → Bool
is_http scheme = same_bytes scheme (codes "http") || same_bytes scheme (codes "https")

-- `raw.find(':') != npos`
unfoldable pub has_byte : ℕ → Bytes → Bool
has_byte c [] = false
has_byte c (x ∷ s) = x == c || has_byte c s

-- The link that an attribute's value stands for; empty if it is not followed.
unfoldable pub resolve : Base → Bytes → Bytes
resolve base [] = []
resolve base (c ∷ s) =
    let raw = c ∷ s in
    if starts_with (codes "http://") raw || starts_with (codes "https://") raw
    then raw
    else if starts_with (codes "//") raw
    then base.scheme ++ b':' ∷ raw
    else if has_byte b':' raw
    then []
    else if c == b'/'
    then base.scheme ++ (codes "://" ++ (base.host ++ raw))
    else base.scheme ++ (codes "://" ++ (base.host ++ (directory base.path ++ raw)))

unfoldable pub link_of : Base → Option Bytes → Bytes
link_of base none = []
link_of base (some raw) = resolve base raw

unfoldable pub push_link : Bytes → List Bytes → List Bytes
push_link [] links = links
push_link (c ∷ s) links = (c ∷ s) ∷ links

unfoldable pub links_of_tags : Base → List Bytes → List Bytes
unfolding push_link
links_of_tags base [] = []
links_of_tags base (tag ∷ tags) =
    push_link (link_of base (attribute (codes "href=") tag)) (links_of_tags base tags)

unfoldable pub extract_links : Bytes → Bytes → List Bytes
extract_links html base_url =
    let base = split_base base_url in
    if not (is_http base.scheme)
    then []
    else links_of_tags base (tags_from (length html) (codes "<a ") html)
