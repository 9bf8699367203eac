-- ===== src/TorArgs/Pieces.antt =====
-- src/tor_proxy_manager.cpp: the pieces of a proxy list, one step of `parseProxyList` at a time.
use mathlib.Core.List.{reverse, reverse-cons, reverse-append, reverse-reverse}
use shadow_se.Base.{
  ℕ, ◌≡◌, refl, ap, ◌⊎◌, inl, inr, Bool, true, false, Bool-cases, not, none, some, List, [], ◌∷◌,
  ◌++◌, ◌==◌, All, All-append, Bytes, is_empty, arith,
}
use shadow_se.Json.Scanner.{is_ws, skip_ws}
use shadow_se.TorArgs.{prepend, split_commas, trim_piece, cut_last}

-- No byte of the text is `c`.
abbrev pub Without : ℕ → Bytes → Type 0
Without c s = All (λ x. (x == c) ≡ false) s

-- The text starts with a byte that is no white space.
unfoldable pub is_solid : Bytes → Bool
unfolding is_ws
is_solid [] = false
is_solid (c ∷ s) = not (is_ws c)

pub split_commas-whole : (s : Bytes) → Without b',' s → split_commas s ≡ s ∷ []
unfolding split_commas
split_commas-whole [] h = refl
split_commas-whole (c ∷ s) (h, k) = rw (h, split_commas-whole s k) refl

prepend-Without :
    (c : ℕ) (ps : List Bytes)
    → (c == b',') ≡ false
    → All (Without b',') ps
    → All (Without b',') (prepend c ps)
unfolding prepend
prepend-Without c [] h k = ((h, tt), tt)
prepend-Without c (p ∷ ps) h (k, l) = ((h, k), l)

pub split_commas-Without : (s : Bytes) → All (Without b',') (split_commas s)
unfolding split_commas
split_commas-Without [] = (tt, tt)
split_commas-Without (c ∷ s) = elim (Bool-cases (c == b',')) [
  | inl e ↦ rw e (tt, split_commas-Without s)
  | inr e ↦ rw e (prepend-Without c (split_commas s) e (split_commas-Without s))
]

skip_ws-All : (P : ℕ → Type 0) (s : Bytes) → All P s → All P (skip_ws s)
unfolding skip_ws
skip_ws-All P [] h = tt
skip_ws-All P (c ∷ s) h = elim (Bool-cases (is_ws c)) [
  | inl e ↦ rw e (skip_ws-All P s h.1)
  | inr e ↦ rw e h
]

pub All-reverse : (P : ℕ → Type 0) (s : Bytes) → All P s → All P (reverse s)
All-reverse P [] h = tt
All-reverse P (c ∷ s) h =
    rw (reverse-cons c s) (All-append P (reverse s) (c ∷ []) (All-reverse P s h.1) (h.0, tt))

pub trim_piece-Without : (c : ℕ) (s : Bytes) → Without c s → Without c (trim_piece s)
unfolding trim_piece
trim_piece-Without c s h =
    let p = λ (x : ℕ). (x == c) ≡ false in
    All-reverse p (skip_ws (reverse (skip_ws s)))
      (skip_ws-All p (reverse (skip_ws s)) (All-reverse p (skip_ws s) (skip_ws-All p s h)))

skip_ws-is_solid : (s : Bytes) → is_solid s ≡ true → skip_ws s ≡ s
unfolding skip_ws is_solid
skip_ws-is_solid [] h = refl
skip_ws-is_solid (c ∷ s) h = ground arith

pub trim_piece-is_solid :
    (s : Bytes) → is_solid s ≡ true → is_solid (reverse s) ≡ true → trim_piece s ≡ s
unfolding trim_piece
trim_piece-is_solid s h k =
    rw (skip_ws-is_solid s h) (rw (skip_ws-is_solid (reverse s) k) (reverse-reverse s))

pub is_solid-append : (s t : Bytes) → is_solid s ≡ true → is_solid (s ++ t) ≡ true
unfolding is_solid
is_solid-append [] t h = absurd (cc)
is_solid-append (c ∷ s) t h = h

-- The byte in front of the white space at the end stays.
skip_ws-last :
    (s : Bytes) (c : ℕ) → is_ws c ≡ false → (t : Bytes) × (skip_ws (s ++ c ∷ []) ≡ t ++ c ∷ [])
unfolding skip_ws
skip_ws-last [] c h = ([], rw h refl)
skip_ws-last (x ∷ s) c h = elim (Bool-cases (is_ws x)) [
  | inl e ↦ rw e (skip_ws-last s c h)
  | inr e ↦ rw e (x ∷ s, refl)
]

trimmed_is_solid : (s : Bytes) → is_solid s ≡ true → is_solid (reverse (skip_ws (reverse s))) ≡ true
unfolding is_solid
trimmed_is_solid [] h = absurd (cc)
trimmed_is_solid (c ∷ s) h =
    let (t, e) = skip_ws-last (reverse s) c (ground (arith, h)) in
    rw (reverse-cons c s) (rw e (rw (reverse-append t (c ∷ [])) h))

skip_ws-solid_or_nil : (s : Bytes) → (skip_ws s ≡ []) ⊎ (is_solid (skip_ws s) ≡ true)
unfolding skip_ws is_solid
skip_ws-solid_or_nil [] = inl refl
skip_ws-solid_or_nil (c ∷ s) = elim (Bool-cases (is_ws c)) [
  | inl e ↦ rw e (skip_ws-solid_or_nil s)
  | inr e ↦ rw e (inr (rw e refl))
]

trimmed_nil : (s : Bytes) → s ≡ [] → reverse (skip_ws (reverse s)) ≡ []
unfolding skip_ws
trimmed_nil [] e = refl
trimmed_nil (c ∷ s) e = absurd (cc)

-- A piece that is left after the trimming starts with a byte that is no white space.
pub is_solid-trim_piece :
    (s : Bytes) → is_empty (trim_piece s) ≡ false → is_solid (trim_piece s) ≡ true
unfolding trim_piece
is_solid-trim_piece s h = elim (skip_ws-solid_or_nil s) [
  | inl e ↦ absurd (cc (ap is_empty (trimmed_nil (skip_ws s) e), h))
  | inr e ↦ trimmed_is_solid (skip_ws s) e
]

cut_last-none : (c : ℕ) (s : Bytes) → Without c s → cut_last c s ≡ none
unfolding cut_last
cut_last-none c [] h = refl
cut_last-none c (x ∷ s) h = rw (cut_last-none c s h.1) (rw h.0 refl)

pub cut_last-append : (c : ℕ) (s t : Bytes) → Without c t → cut_last c (s ++ c ∷ t) ≡ some (s, t)
unfolding cut_last
cut_last-append c [] t h = rw (cut_last-none c t h) (ground arith)
cut_last-append c (x ∷ s) t h = rw (cut_last-append c s t h) refl
