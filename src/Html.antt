-- ===== src/Html.antt =====
-- src/crawler.cpp: what the crawler takes out of a page. An offset into the page is the text from
-- there on. `std::tolower`, `std::isspace` and `std::ispunct` are those of the C locale.
pub mod Strip
pub mod Links
use shadow_se.Base.{
  ℕ, zero, suc, Bool, true, false, not, ◌&&◌, ◌||◌, Option, none, some, List, [], ◌∷◌, ◌++◌, ◌==◌,
  within, if◌then◌else◌, length, drop, Bytes, codes, keep_head, is_empty, starts_with, cut, cut_sub,
  is_space, trim, lower_byte,
}

-- The comparison of `ciFind` at one offset.
unfoldable pub ci_starts : Bytes → Bytes → Bool
ci_starts [] s = true
ci_starts (x ∷ p) [] = false
ci_starts (x ∷ p) (y ∷ s) = lower_byte y == lower_byte x && ci_starts p s

-- `ciFind`, for a needle that is not empty: the text before the first match, and from it on.
unfoldable pub ci_cut : Bytes → Bytes → Option (Bytes × Bytes)
ci_cut p [] = none
ci_cut p (c ∷ s) =
    let rest = keep_head c (ci_cut p s) in if ci_starts p (c ∷ s) then some ([], c ∷ s) else rest

abbrev pub is_found : Option (Bytes × Bytes) → Bool
is_found none = false
is_found (some found) = true

-- `readAttributeValue`, on the text behind the `=`.
unfoldable pub read_attribute_value : Bytes → Bytes
read_attribute_value [] = []
read_attribute_value (q ∷ s) = elim (cut q s) [ none ↦ [] | some (value, rest) ↦ value ]

-- The loop of `collapseWhitespace`; `started` holds once `out` is not empty.
unfoldable pub collapse_from : Bool → Bool → Bytes → Bytes
collapse_from in_space started [] = []
collapse_from in_space started (c ∷ s) =
    let rest = collapse_from (is_space c) (started || not (is_space c)) s in
    if is_space c then rest else if in_space && started then b' ' ∷ c ∷ rest else c ∷ rest

unfoldable pub collapse_whitespace : Bytes → Bytes
unfolding collapse_from
collapse_whitespace s = collapse_from false false s

-- The text behind the `>` of the title's tag, up to its close tag.
unfoldable pub title_text : Option (Bytes × Bytes) → Bytes
title_text none = []
title_text (some (tag, behind)) = elim (ci_cut (codes "</title>") behind) [
  | none ↦ []
  | some (text, rest) ↦ trim (collapse_whitespace text)
]

unfoldable pub extract_title : Bytes → Bytes
unfolding title_text
extract_title html = elim (ci_cut (codes "<title") html) [
  | none ↦ []
  | some (before, s) ↦ title_text (cut b'>' s)
]

-- The test of a `meta` tag.
unfoldable pub names_description : Bytes → Bool
names_description tag =
    is_found (ci_cut (codes "name=\"description\"") tag)
    || is_found (ci_cut (codes "name='description'") tag)
    || is_found (ci_cut (codes "name=\"DESCRIPTION\"") tag)

-- The value of an attribute of a tag: `name` ends with `=`.
unfoldable pub attribute : Bytes → Bytes → Option Bytes
attribute name tag = elim (ci_cut name tag) [
  | none ↦ none
  | some (before, s) ↦ some (read_attribute_value (drop (length name) s))
]

unfoldable pub description_in : Bytes → Option Bytes
description_in tag = if names_description tag then attribute (codes "content=") tag else none

-- The next tag that opens with `p`, and the text behind its `>`.
unfoldable pub next_tag : Bytes → Bytes → Option (Bytes × Bytes)
next_tag p html = elim (ci_cut p html) [ none ↦ none | some (before, s) ↦ cut b'>' s ]

-- Both loops over tags, `<meta` and `<a `, on fuel: the tags in order.
unfoldable pub tags_from : ℕ → Bytes → Bytes → List Bytes
tags_from zero p html = []
tags_from (suc fuel) p html = elim (next_tag p html) [
  | none ↦ []
  | some (tag, behind) ↦ tag ∷ tags_from fuel p behind
]

unfoldable pub first_description : List Bytes → Bytes
first_description [] = []
first_description (tag ∷ tags) = elim (description_in tag) [
  | none ↦ first_description tags
  | some value ↦ collapse_whitespace value
]

unfoldable pub extract_description : Bytes → Bytes
extract_description html = first_description (tags_from (length html) (codes "<meta") html)
