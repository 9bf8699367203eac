-- ===== src/Html/Strip.antt =====
-- src/crawler.cpp: `htmlStripTags`. `out` is kept with its last byte first.
pub mod Progress
pub mod Clean
use mathlib.Core.List.{reverse}
use shadow_se.Base.{
  ℕ, zero, suc, Bool, true, false, not, ◌&&◌, ◌||◌, Option, none, some, List, [], ◌∷◌, ◌++◌, ◌==◌,
  within, if◌then◌else◌, length, drop, Bytes, codes, is_empty, same_bytes, starts_with, cut,
  cut_sub, span_until, lower_byte, lower_ascii,
}
use shadow_se.Html.{collapse_whitespace}

unfoldable pub is_punct : ℕ → Bool
is_punct c = within 33 47 c || within 58 64 c || within 91 96 c || within 123 126 c

unfoldable pub append_text : ℕ → Bytes → Bytes
append_text c [] = c ∷ []
append_text c (x ∷ out) = if x == b' ' && is_punct c then c ∷ out else c ∷ x ∷ out

unfoldable pub separator : Bytes → Bytes
separator [] = []
separator (x ∷ out) = if x == b' ' then x ∷ out else b' ' ∷ x ∷ out

-- `kBlocks`
abbrev pub remove_blocks : List Bytes
remove_blocks =
    codes "script"
    ∷ codes "style"
    ∷ codes "noscript"
    ∷ codes "template"
    ∷ codes "svg"
    ∷ codes "head"
    ∷ codes "nav"
    ∷ codes "footer"
    ∷ codes "header"
    ∷ codes "aside"
    ∷ []

unfoldable pub is_one_of : Bytes → List Bytes → Bool
is_one_of s [] = false
is_one_of s (b ∷ bs) = same_bytes s b || is_one_of s bs

unfoldable pub is_remove_block : Bytes → Bool
unfolding is_one_of
is_remove_block lower = is_one_of lower remove_blocks

-- Up to the `>` of a tag, or to the end of the text, and the text behind it.
unfoldable pub tag_text : Option (Bytes × Bytes) → Bytes → Bytes
tag_text none s = s
tag_text (some (tag, behind)) s = tag

unfoldable pub tag_rest : Option (Bytes × Bytes) → Bytes
tag_rest none = []
tag_rest (some (tag, behind)) = behind

unfoldable pub ends_name : ℕ → Bool
ends_name c = c == b' ' || c == 9 || c == 10 || c == b'/'

unfoldable pub skip_slash : Bytes → Bytes
skip_slash [] = []
skip_slash (c ∷ s) = if c == b'/' then s else c ∷ s

-- The name of a tag whose text behind the `<` is given.
unfoldable pub tag_name : Bytes → Bytes
unfolding ends_name skip_slash
tag_name s = lower_ascii (span_until ends_name (skip_slash s)).0

unfoldable pub last_is : ℕ → Bytes → Bool
last_is c [] = false
last_is c (x ∷ []) = x == c
last_is c (x ∷ y ∷ s) = last_is c (y ∷ s)

-- A tag whose `>` was found, with `/` before it.
unfoldable pub self_closing : Option (Bytes × Bytes) → Bool
self_closing none = false
self_closing (some (tag, behind)) = last_is b'/' tag

-- The comparison of the search for a close tag: `close` is in lower case.
unfoldable pub lower_starts : Bytes → Bytes → Bool
lower_starts [] s = true
lower_starts (x ∷ p) [] = false
lower_starts (x ∷ p) (y ∷ s) = lower_byte y == x && lower_starts p s

-- What may stand behind the name of a close tag.
unfoldable pub closes_name : Bytes → Bool
closes_name [] = true
closes_name (c ∷ s) = c == b' ' || c == b'>' || c == b'/' || c == 9 || c == 10

-- The search for a close tag: the text behind the matched part.
unfoldable pub behind_close : Bytes → Bytes → Option Bytes
unfolding lower_starts closes_name
behind_close close [] = none
behind_close close (c ∷ s) =
    let rest = behind_close close s in
    if lower_starts close (c ∷ s) && closes_name (drop (length close) (c ∷ s))
    then some (drop (length close) (c ∷ s))
    else rest

-- The output and the text left.
abbrev pub State : Type 0
State = Bytes × Bytes

unfoldable pub comment_rest : Option (Bytes × Bytes) → Bytes
comment_rest none = []
comment_rest (some (comment, rest)) = drop 3 rest

unfoldable pub skip_comment : Bytes → Bytes → State
skip_comment out s = (out, comment_rest (cut_sub (codes "-->") (drop 4 s)))

unfoldable pub close_block : Bytes → Option Bytes → State
unfolding tag_rest
close_block out none = (out, [])
close_block out (some after) = (separator out, tag_rest (cut b'>' after))

unfoldable pub skip_block : Bytes → Bytes → Bytes → State
skip_block name out behind = close_block out (behind_close (codes "</" ++ name) behind)

unfoldable pub skip_tag : Bytes → Bytes → State
unfolding tag_text tag_rest self_closing
skip_tag out s =
    let gt = cut b'>' s in
    let name = tag_name (drop 1 (tag_text gt s)) in
    if not (is_empty name) && is_remove_block name && not (self_closing gt)
    then skip_block name out (tag_rest gt)
    else (separator out, tag_rest gt)

-- One round of the loop, on a text that starts with `c`.
unfoldable pub strip_step : Bytes → ℕ → Bytes → State
strip_step out c s =
    if not (c == b'<')
    then (append_text c out, s)
    else if starts_with (codes "<!--") (c ∷ s)
    then skip_comment out (c ∷ s)
    else skip_tag out (c ∷ s)

unfoldable pub strip_from : ℕ → Bytes → Bytes → Bytes
strip_from zero out s = out
strip_from (suc fuel) out [] = out
strip_from (suc fuel) out (c ∷ s) = let (out', s') = strip_step out c s in strip_from fuel out' s'

unfoldable pub strip_tags : Bytes → Bytes
strip_tags html = collapse_whitespace (reverse (strip_from (length html) [] html))
