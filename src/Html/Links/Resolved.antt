-- ===== src/Html/Links/Resolved.antt =====
-- src/crawler.cpp: the links that `htmlExtractLinks` hands to the crawler.
use shadow_se.Base.{
  ◌≡◌, refl, sym, subst, ◌⊎◌, inl, inr, Bool, true, false, Bool-cases, ◌||◌, Option, none, some,
  List, [], ◌∷◌, ◌++◌, ◌==◌, if◌then◌else◌, All, Bytes, codes, drop, starts_with, same_bytes,
  same_bytes_iff, arith, length,
}
use shadow_se.Html.{attribute, tags_from}
use shadow_se.Html.Links.{
  Base, split_base, is_http, has_byte, directory, resolve, link_of, push_link, links_of_tags,
  extract_links,
}

-- A link that the crawler may fetch.
abbrev pub IsWeb : Bytes → Type 0
IsWeb link =
    (starts_with (codes "http://") link ≡ true) ⊎ (starts_with (codes "https://") link ≡ true)

abbrev IsWebOrEmpty : Bytes → Type 0
IsWebOrEmpty link = (link ≡ []) ⊎ IsWeb link

starts_with-prefix : (p s : Bytes) → starts_with p (p ++ s) ≡ true
unfolding starts_with
starts_with-prefix [] s = refl
starts_with-prefix (c ∷ p) s = ground (arith, starts_with-prefix p s)

under_scheme :
    (scheme rest : Bytes) → is_http scheme ≡ true → IsWeb (scheme ++ (codes "://" ++ rest))
unfolding is_http
under_scheme scheme rest h = elim (Bool-cases (same_bytes scheme (codes "http"))) [
  | inl e ↦
      let same = sym ((same_bytes_iff scheme (codes "http")).0 e) in
      subst (λ s. IsWeb (s ++ (codes "://" ++ rest))) same
        (inl (starts_with-prefix (codes "http://") rest))
  | inr e ↦
      let same = sym ((same_bytes_iff scheme (codes "https")).0 (ground (arith, e, h))) in
      subst (λ s. IsWeb (s ++ (codes "://" ++ rest))) same
        (inr (starts_with-prefix (codes "https://") rest))
]

two_slashes : (raw : Bytes) → starts_with (codes "//") raw ≡ true → codes "//" ++ drop 2 raw ≡ raw
unfolding starts_with
two_slashes [] h = absurd (cc)
two_slashes (a ∷ []) h = absurd (ground arith)
two_slashes (a ∷ b ∷ s) h =
    let first : 47 ≡ a = ground arith in
    let second : 47 ≡ b = ground arith in λ i. first i ∷ second i ∷ s

either_link :
    (test : Bool) (a b : Bytes)
    → (test ≡ true → IsWebOrEmpty a)
    → (test ≡ false → IsWebOrEmpty b)
    → IsWebOrEmpty (if test then a else b)
either_link true a b h k = h refl
either_link false a b h k = k refl

resolve-IsWeb :
    (base : Base) (raw : Bytes) → is_http base.scheme ≡ true → IsWebOrEmpty (resolve base raw)
unfolding resolve
resolve-IsWeb base [] h = inl refl
resolve-IsWeb base (c ∷ s) h =
    let raw = c ∷ s in
    let web = starts_with (codes "http://") raw in
    let secure = starts_with (codes "https://") raw in
    either_link (web || secure) _ _
      (λ k. inr (elim (Bool-cases web) [ inl e ↦ inl e | inr e ↦ inr (ground (arith, e, k)) ]))
      (λ k.
        either_link (starts_with (codes "//") raw) _ _
          (λ e. inr (
            subst (λ r. IsWeb (base.scheme ++ b':' ∷ r)) (two_slashes raw e)
              (under_scheme base.scheme (drop 2 raw) h)))
          (λ e.
            either_link (has_byte b':' raw) _ _ (λ f. inl refl)
              (λ f.
                either_link (c == b'/') _ _
                  (λ g. inr (under_scheme base.scheme (base.host ++ raw) h))
                  (λ g.
                    inr (under_scheme base.scheme (base.host ++ (directory base.path ++ raw)) h)))))

link_of-IsWeb :
    (base : Base) (raw : Option Bytes)
    → is_http base.scheme ≡ true
    → IsWebOrEmpty (link_of base raw)
unfolding link_of
link_of-IsWeb base none h = inl refl
link_of-IsWeb base (some raw) h = resolve-IsWeb base raw h

push_link-IsWeb :
    (link : Bytes) (links : List Bytes)
    → IsWebOrEmpty link
    → All IsWeb links
    → All IsWeb (push_link link links)
unfolding push_link
push_link-IsWeb [] links h k = k
push_link-IsWeb (c ∷ s) links (inl e) k = absurd (cc)
push_link-IsWeb (c ∷ s) links (inr h) k = (h, k)

links_of_tags-IsWeb :
    (base : Base) (tags : List Bytes)
    → is_http base.scheme ≡ true
    → All IsWeb (links_of_tags base tags)
unfolding links_of_tags
links_of_tags-IsWeb base [] h = tt
links_of_tags-IsWeb base (tag ∷ tags) h =
    let raw = attribute (codes "href=") tag in
    push_link-IsWeb (link_of base raw) (links_of_tags base tags) (link_of-IsWeb base raw h)
      (links_of_tags-IsWeb base tags h)

-- Every link taken out of a page starts with `http://` or `https://`, whatever the page's
-- attributes and its own address are.
pub extract_links-IsWeb : (html url : Bytes) → All IsWeb (extract_links html url)
unfolding extract_links
extract_links-IsWeb html url = elim (Bool-cases (is_http (split_base url).scheme)) [
  | inl h ↦
      rw h (links_of_tags-IsWeb (split_base url) (tags_from (length html) (codes "<a ") html) h)
  | inr h ↦ rw h tt
]
