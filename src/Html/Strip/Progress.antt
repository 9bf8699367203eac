-- ===== src/Html/Strip/Progress.antt =====
-- src/crawler.cpp: the loop of `htmlStripTags` takes at least one byte a round.
use mathlib.Core.List.{reverse}
use shadow_se.Base.{
  ℕ, zero, suc, ◌+◌, ◌≤◌, ◌≡◌, refl, Bool, true, false, inl, inr, Option, none, some, List, [], ◌∷◌,
  ◌++◌, ◌==◌, if◌then◌else◌, Bool-cases, ◌&&◌, ◌||◌, length, drop, length-drop, Bytes, codes,
  keep_head, cut, cut_sub, is_space, starts_with, arith,
}
use shadow_se.Html.{collapse_from, collapse_whitespace}
use shadow_se.Html.Strip.{
  tag_text, tag_rest, tag_name, behind_close, comment_rest, skip_comment, close_block, skip_block,
  skip_tag, strip_step, strip_from, strip_tags,
}

tag_rest-keep :
    (x : ℕ) (found : Option (Bytes × Bytes)) → tag_rest (keep_head x found) ≡ tag_rest found
unfolding tag_rest
tag_rest-keep x none = refl
tag_rest-keep x (some (a, b)) = refl

tag_rest-cut-length : (c x : ℕ) (s : Bytes) → length (tag_rest (cut c (x ∷ s))) ≤ length s
unfolding cut tag_rest
tag_rest-cut-length c x [] = ground arith
tag_rest-cut-length c x (y ∷ s) = elim (Bool-cases (x == c)) [
  | inl h ↦ rw h (omega arith)
  | inr h ↦ rw (h, tag_rest-keep x (cut c (y ∷ s))) (omega (arith, tag_rest-cut-length c y s))
]

cut-rest-length : (c : ℕ) (s : Bytes) → length (tag_rest (cut c s)) ≤ length s
unfolding cut tag_rest
cut-rest-length c [] = omega arith
cut-rest-length c (x ∷ s) = omega (arith, tag_rest-cut-length c x s)

collapse-step :
    (in_space started : Bool) (c : ℕ) (rest : Bytes)
    → is_space c ≡ false
    → collapse_from false true rest ≡ rest
    → collapse_from false started (if in_space && started then b' ' ∷ c ∷ rest else c ∷ rest)
      ≡ (if in_space && started then b' ' ∷ c ∷ rest else c ∷ rest)
unfolding collapse_from is_space
collapse-step true true c rest h same = rw (h, same) refl
collapse-step true false c rest h same = rw (h, same) refl
collapse-step false true c rest h same = rw (h, same) refl
collapse-step false false c rest h same = rw (h, same) refl

or_true : (b : Bool) → b || true ≡ true
or_true true = refl
or_true false = refl

or_false : (b : Bool) → b || false ≡ b
or_false true = refl
or_false false = refl

collapse-twice :
    (in_space started : Bool) (s : Bytes)
    → collapse_from false started (collapse_from in_space started s)
      ≡ collapse_from in_space started s
unfolding collapse_from
collapse-twice in_space started [] = refl
collapse-twice in_space started (c ∷ s) = elim (Bool-cases (is_space c)) [
  | inl h ↦ rw (h, or_false started) (collapse-twice true started s)
  | inr h ↦
      rw (h, or_true started)
        (collapse-step in_space started c (collapse_from false true s) h
          (collapse-twice false true s))
]

-- Collapsing the whitespace of a text a second time changes nothing.
pub collapse_whitespace-twice :
    (s : Bytes) → collapse_whitespace (collapse_whitespace s) ≡ collapse_whitespace s
unfolding collapse_whitespace
collapse_whitespace-twice s = collapse-twice false false s

-- Progress.

drop-le : {A : Type 0} (n : ℕ) (s : List A) → length (drop n s) ≤ length s
drop-le n s = omega (arith, length-drop n s)

abbrev rest_of : Option (Bytes × Bytes) → Bytes
rest_of none = []
rest_of (some (a, b)) = b

rest_of-keep :
    (x : ℕ) (found : Option (Bytes × Bytes)) → rest_of (keep_head x found) ≡ rest_of found
rest_of-keep x none = refl
rest_of-keep x (some (a, b)) = refl

cut_sub-length : (p s : Bytes) → length (rest_of (cut_sub p s)) ≤ length s
unfolding cut_sub
cut_sub-length p [] = ground arith
cut_sub-length p (x ∷ s) = elim (Bool-cases (starts_with p (x ∷ s))) [
  | inl h ↦ rw h (omega arith)
  | inr h ↦ rw (h, rest_of-keep x (cut_sub p s)) (omega (arith, cut_sub-length p s))
]

comment_rest-length :
    (found : Option (Bytes × Bytes)) → length (comment_rest found) ≤ length (rest_of found)
unfolding comment_rest
comment_rest-length none = omega arith
comment_rest-length (some (comment, rest)) = drop-le 3 rest

skip_comment-length :
    (out : Bytes) (c : ℕ) (s : Bytes) → length (skip_comment out (c ∷ s)).1 ≤ length s
unfolding skip_comment
skip_comment-length out c s =
    let found = cut_sub (codes "-->") (drop 3 s) in
    omega (arith, comment_rest-length found, cut_sub-length (codes "-->") (drop 3 s), drop-le 3 s)

behind_close-length :
    (close s after : Bytes) → behind_close close s ≡ some after → length after ≤ length s
unfolding behind_close
behind_close-length close [] after h = ground arith
behind_close-length close (c ∷ s) after h =
    ground (arith, behind_close-length close s after, drop-le (length close) (c ∷ s))

close_block-length :
    (out s : Bytes) (found : Option Bytes)
    → ((after : Bytes) → found ≡ some after → length after ≤ length s)
    → length (close_block out found).1 ≤ length s
unfolding close_block
close_block-length out s none bound = omega arith
close_block-length out s (some after) bound =
    omega (arith, bound after refl, cut-rest-length b'>' after)

skip_tag-length : (out : Bytes) (c : ℕ) (s : Bytes) → length (skip_tag out (c ∷ s)).1 ≤ length s
unfolding skip_tag skip_block
skip_tag-length out c s =
    let behind = tag_rest (cut b'>' (c ∷ s)) in
    let name = tag_name (drop 1 (tag_text (cut b'>' (c ∷ s)) (c ∷ s))) in
    let close = codes "</" ++ name in
    ground (
      arith,
      tag_rest-cut-length b'>' c s,
      close_block-length out behind (behind_close close behind) (behind_close-length close behind),
    )

strip_step-length : (out : Bytes) (c : ℕ) (s : Bytes) → length (strip_step out c s).1 ≤ length s
unfolding strip_step
strip_step-length out c s = ground (arith, skip_comment-length out c s, skip_tag-length out c s)

-- The fuel that is left over is not used.
strip_from-enough :
    (n m : ℕ) (out s : Bytes)
    → length s ≤ n
    → length s ≤ m
    → strip_from n out s ≡ strip_from m out s
unfolding strip_from
strip_from-enough zero zero out s h k = refl
strip_from-enough zero (suc m) out [] h k = refl
strip_from-enough (suc n) zero out [] h k = refl
strip_from-enough (suc n) (suc m) out [] h k = refl
strip_from-enough zero m out (c ∷ s) h k = absurd (omega arith)
strip_from-enough (suc n) zero out (c ∷ s) h k = absurd (omega arith)
strip_from-enough (suc n) (suc m) out (c ∷ s) h k =
    let step = strip_step out c s in
    let shorter = strip_step-length out c s in
    strip_from-enough n m step.0 step.1 (omega arith) (omega arith)

-- The loop over a page ends: with any number of rounds from the page's length on, it has the
-- same output.
pub strip_tags-fuel :
    (extra : ℕ) (html : Bytes)
    → collapse_whitespace (reverse (strip_from (length html + extra) [] html)) ≡ strip_tags html
unfolding strip_tags
strip_tags-fuel extra html = λ i. collapse_whitespace (
    reverse
      (strip_from-enough (length html + extra) (length html) [] html (omega arith) (omega arith) i))
