-- ===== src/Console/Lines.antt =====
-- src/main.cpp: what a line of the terminal can ask for.
use mathlib.Core.List.{reverse, reverse-cons, reverse-append, reverse-reverse}
use shadow_se.Base.{
  ℕ, ◌≡◌, refl, sym, ap, ◌∙◌, subst, ◌⊎◌, inl, inr, Bool, true, false, ◌||◌, Bool-cases, [], ◌∷◌,
  ◌++◌, length, drop, Bytes, codes, is_empty, same_bytes, same_bytes_iff, starts_with, trim,
  skip_space, is_space, arith,
}
use shadow_se.Console.{
  Command, search, save, load, save_state, load_state, usage, with_path, behind, parse_input,
  parse_line,
}

-- Empty, or with a first byte that is no white space.
StartsSolid : Bytes → Type 0
StartsSolid s = (s ≡ []) ⊎ ((c : ℕ) × (t : Bytes) × (s ≡ c ∷ t) × (is_space c ≡ false))

skip_space-StartsSolid : (s : Bytes) → StartsSolid (skip_space s)
unfolding skip_space StartsSolid
skip_space-StartsSolid [] = inl refl
skip_space-StartsSolid (c ∷ s) = elim (Bool-cases (is_space c)) [
  | inl e ↦ rw e (skip_space-StartsSolid s)
  | inr e ↦ rw e (inr (c, s, refl, e))
]

trim-StartsSolid : (s : Bytes) → StartsSolid (reverse (trim s))
unfolding trim
trim-StartsSolid s =
    subst StartsSolid (sym (reverse-reverse (skip_space (reverse (skip_space s)))))
      (skip_space-StartsSolid (reverse (skip_space s)))

drop-starts_with : (p s : Bytes) → starts_with p s ≡ true → s ≡ p ++ drop (length p) s
unfolding starts_with
drop-starts_with [] s h = refl
drop-starts_with (x ∷ p) [] h = absurd (cc)
drop-starts_with (x ∷ p) (y ∷ s) h = ground (arith, drop-starts_with p s)

-- In front of a blank there is a byte that is no white space.
solid_before_blank :
    (r q : Bytes)
    → StartsSolid (r ++ b' ' ∷ q)
    → (c : ℕ) × (t : Bytes) × (r ≡ c ∷ t) × (is_space c ≡ false)
unfolding StartsSolid is_space
solid_before_blank [] q (inl e) = absurd (cc)
solid_before_blank [] q (inr (c, t, e, h)) = absurd (ground (arith, e, h))
solid_before_blank (x ∷ r) q (inl e) = absurd (cc)
solid_before_blank (x ∷ r) q (inr (c, t, e, h)) = (x, r, refl, ground (arith, e, h))

-- A byte that is no white space at the end of a text stays there.
skip_space-last :
    (s : Bytes) (c : ℕ)
    → is_space c ≡ false
    → (t : Bytes) × (skip_space (s ++ c ∷ []) ≡ t ++ c ∷ [])
unfolding skip_space
skip_space-last [] c h = ([], rw h refl)
skip_space-last (x ∷ s) c h = elim (Bool-cases (is_space x)) [
  | inl e ↦ rw e (skip_space-last s c h)
  | inr e ↦ rw e (x ∷ s, refl)
]

append-nonempty : (t : Bytes) (c : ℕ) → is_empty (t ++ c ∷ []) ≡ false
append-nonempty [] c = refl
append-nonempty (x ∷ t) c = refl

trim-nonempty : (s : Bytes) (c : ℕ) → is_space c ≡ false → is_empty (trim (s ++ c ∷ [])) ≡ false
unfolding trim skip_space
trim-nonempty s c h =
    let (t, e) = skip_space-last s c h in
    rw e (
      rw (reverse-append t (c ∷ []))
        (rw h (rw (reverse-cons c (reverse t)) (append-nonempty (reverse (reverse t)) c))))

reverse-nil : (s : Bytes) (c : ℕ) (t : Bytes) → reverse s ≡ c ∷ t → s ≡ reverse t ++ c ∷ []
reverse-nil s c t e = sym (reverse-reverse s) ∙ ap reverse e ∙ reverse-cons c t

-- Behind a command and its blank, a trimmed line has something.
behind-nonempty :
    (q line : Bytes)
    → starts_with (q ++ b' ' ∷ []) (trim line) ≡ true
    → is_empty (behind (q ++ b' ' ∷ []) (trim line)) ≡ false
unfolding behind
behind-nonempty q line h =
    let s = trim line in
    let p = q ++ b' ' ∷ [] in
    let d = drop (length p) s in
    let e : reverse s ≡ reverse d ++ b' ' ∷ reverse q =
      ap reverse (drop-starts_with p s h)
      ∙ reverse-append p d
      ∙ ap (λ (t : Bytes). reverse d ++ t) (reverse-append q (b' ' ∷ [])) in
    let (c, t, r, k) =
      solid_before_blank (reverse d) (reverse q) (subst StartsSolid e (trim-StartsSolid line)) in
    rw (reverse-nil d c t r) (trim-nonempty (reverse t) c k)

unfoldable pub is_usage : Command → Bool
is_usage (usage name) = true
is_usage _ = false

with_path-is_usage :
    (name path : Bytes) (make : Bytes → Command)
    → ((p : Bytes) → is_usage (make p) ≡ false)
    → is_empty path ≡ false
    → is_usage (with_path name make path) ≡ false
unfolding with_path
with_path-is_usage name path make h k = rw k (h path)

-- Behind the blank of a command there is always an argument.
asks :
    (q line : Bytes) (name : Bytes) (make : Bytes → Command)
    → ((p : Bytes) → is_usage (make p) ≡ false)
    → starts_with (q ++ b' ' ∷ []) (trim line) ≡ true
    → is_usage (with_path name make (behind (q ++ b' ' ∷ []) (trim line))) ≡ false
asks q line name make h k =
    with_path-is_usage name (behind (q ++ b' ' ∷ []) (trim line)) make h (behind-nonempty q line k)

-- The commands that take an argument.
unfoldable pub takes_argument : Bytes → Bool
takes_argument name =
    same_bytes name (codes "search")
    || same_bytes name (codes "crawl")
    || same_bytes name (codes "save")
    || same_bytes name (codes "load")
    || same_bytes name (codes "save-state")
    || same_bytes name (codes "load-state")

never_usage : (line : Bytes) → is_usage (parse_line line) ≡ false
unfolding parse_line is_usage
never_usage line = ground (
  arith,
  asks (codes "search") line (codes "search") search (λ p. refl),
  asks (codes "save") line (codes "save") save (λ p. refl),
  asks (codes "load") line (codes "load") load (λ p. refl),
  asks (codes "save-state") line (codes "save-state") save_state (λ p. refl),
  asks (codes "load-state") line (codes "load-state") load_state (λ p. refl),
)

searched_if :
    (input name : Bytes)
    → parse_input name ≡ search name
    → same_bytes input name ≡ true
    → parse_input input ≡ search input
searched_if input name e h =
    let same : name ≡ input = sym ((same_bytes_iff input name).0 h) in
    subst (λ (s : Bytes). parse_input s ≡ search s) same e

parse_input-name : (input : Bytes) → takes_argument input ≡ true → parse_input input ≡ search input
unfolding takes_argument
parse_input-name input h = ground (
  arith,
  h,
  searched_if input (codes "search") (unfold parse_input same_bytes starts_with in refl),
  searched_if input (codes "crawl") (unfold parse_input same_bytes starts_with in refl),
  searched_if input (codes "save") (unfold parse_input same_bytes starts_with in refl),
  searched_if input (codes "load") (unfold parse_input same_bytes starts_with in refl),
  searched_if input (codes "save-state") (unfold parse_input same_bytes starts_with in refl),
  searched_if input (codes "load-state") (unfold parse_input same_bytes starts_with in refl),
)

-- No line is answered by the usage line of a command; and a line that is the name of a command that takes an
-- argument, `search`, `crawl`, `save`, `load`, `save-state` or `load-state`, with white space around it at most,
-- is a search for that name.
pub parse_line-is_usage :
    (line bare : Bytes)
    → takes_argument (trim bare) ≡ true
    → (is_usage (parse_line line) ≡ false) × (parse_line bare ≡ search (trim bare))
unfolding parse_line
parse_line-is_usage line bare h = (never_usage line, parse_input-name (trim bare) h)
