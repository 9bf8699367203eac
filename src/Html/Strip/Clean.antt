-- ===== src/Html/Strip/Clean.antt =====
-- src/crawler.cpp: the text that `htmlStripTags` leaves.
use mathlib.Core.List.{reverse, reverse_aux}
use shadow_se.Base.{
  ℕ, zero, suc, ◌≢◌, Bool, true, false, inl, inr, Option, none, some, [], ◌∷◌, ◌++◌, ◌==◌,
  if◌then◌else◌, Bool-cases, not, ◌&&◌, ◌||◌, is_empty, All, length, drop, Bytes, codes, cut,
  is_space, starts_with, arith,
}
use shadow_se.Html.{collapse_from, collapse_whitespace}
use shadow_se.Html.Strip.{
  append_text, separator, is_remove_block, tag_text, tag_rest, tag_name, self_closing, behind_close,
  skip_comment, close_block, skip_block, is_punct, skip_tag, strip_step, strip_from, strip_tags,
}

abbrev pub IsText : ℕ → Type 0
IsText c = c ≢ b'<'

append_text-IsText :
    (c : ℕ) (out : Bytes) → IsText c → All IsText out → All IsText (append_text c out)
unfolding append_text
append_text-IsText c [] h k = (h, tt)
append_text-IsText c (x ∷ out) h k = elim (Bool-cases (x == b' ' && is_punct c)) [
  | inl e ↦ rw e (h, k.1)
  | inr e ↦ rw e (h, k)
]

separator-IsText : (out : Bytes) → All IsText out → All IsText (separator out)
unfolding separator
separator-IsText [] k = tt
separator-IsText (x ∷ out) k = elim (Bool-cases (x == b' ')) [
  | inl e ↦ rw e k
  | inr e ↦ rw e (λ h. omega arith, k)
]

close_block-IsText :
    (out : Bytes) (found : Option Bytes) → All IsText out → All IsText (close_block out found).0
unfolding close_block
close_block-IsText out none k = k
close_block-IsText out (some after) k = separator-IsText out k

skip_tag-IsText : (out s : Bytes) → All IsText out → All IsText (skip_tag out s).0
unfolding skip_tag skip_block
skip_tag-IsText out s k =
    let gt = cut b'>' s in
    let name = tag_name (drop 1 (tag_text gt s)) in
    elim (Bool-cases (not (is_empty name) && is_remove_block name && not (self_closing gt))) [
      | inl e ↦ rw e (close_block-IsText out (behind_close (codes "</" ++ name) (tag_rest gt)) k)
      | inr e ↦ rw e (separator-IsText out k)
    ]

strip_step-IsText :
    (out : Bytes) (c : ℕ) (s : Bytes) → All IsText out → All IsText (strip_step out c s).0
unfolding strip_step skip_comment
strip_step-IsText out c s k = elim (Bool-cases (c == b'<')) [
  | inl e ↦ elim (Bool-cases (starts_with (codes "<!--") (c ∷ s))) [
    | inl f ↦ rw (e, f) k
    | inr f ↦ rw (e, f) (skip_tag-IsText out (c ∷ s) k)
  ]
  | inr e ↦ rw e (append_text-IsText c out (λ h. ground arith) k)
]

strip_from-IsText : (n : ℕ) (out s : Bytes) → All IsText out → All IsText (strip_from n out s)
unfolding strip_from
strip_from-IsText zero out s k = k
strip_from-IsText (suc n) out [] k = k
strip_from-IsText (suc n) out (c ∷ s) k =
    let step = strip_step out c s in strip_from-IsText n step.0 step.1 (strip_step-IsText out c s k)

reverse_aux-IsText : (s t : Bytes) → All IsText s → All IsText t → All IsText (reverse_aux s t)
reverse_aux-IsText [] t h k = k
reverse_aux-IsText (c ∷ s) t h k = reverse_aux-IsText s (c ∷ t) h.1 (h.0, k)

either-IsText :
    (test : Bool) (s t : Bytes) → All IsText s → All IsText t → All IsText (if test then s else t)
either-IsText true s t h k = h
either-IsText false s t h k = k

collapse_from-IsText :
    (in_space started : Bool) (s : Bytes)
    → All IsText s
    → All IsText (collapse_from in_space started s)
unfolding collapse_from
collapse_from-IsText in_space started [] k = tt
collapse_from-IsText in_space started (c ∷ s) k =
    let rest = collapse_from (is_space c) (started || not (is_space c)) s in
    let clean = collapse_from-IsText (is_space c) (started || not (is_space c)) s k.1 in
    either-IsText (is_space c) rest (if in_space && started then b' ' ∷ c ∷ rest else c ∷ rest)
      clean
      (either-IsText (in_space && started) (b' ' ∷ c ∷ rest) (c ∷ rest)
        (λ h. omega arith, (k.0, clean)) (k.0, clean))

-- For every page, the text that is stored as its content has no `<` in it.
pub strip_tags-IsText : (html : Bytes) → All IsText (strip_tags html)
unfolding strip_tags collapse_whitespace
strip_tags-IsText html =
    let out = strip_from (length html) [] html in
    collapse_from-IsText false false (reverse out)
      (reverse_aux-IsText out [] (strip_from-IsText (length html) [] html tt) tt)
