-- ===== src/Web/Escape.antt =====
-- src/web_server.cpp: escaping and decoding.
use shadow_se.Base.{
  ℕ, ◌+◌, ◌/◌, ◌%◌, ◌<◌, ◌≡◌, ◌≢◌, sym, refl, ap, ◌∙◌, arith, Bool, true, not, ◌&&◌, ◌||◌,
  Bool-cases, inl, inr, some, [], ◌∷◌, ◌++◌, ◌==◌, within, if◌then◌else◌, ltb, Bytes, IsByte, All,
  All-append,
}
use shadow_se.Web.{escape_byte, escape_html, hex_digit, hex_pair, cons_decoded, url_decode}

-- A byte that opens no tag, ends no tag and ends no attribute value.
unfoldable pub inert : ℕ → Bool
inert c = not (c == b'<') && not (c == b'>') && not (c == b'"') && not (c == 39)

abbrev pub IsInert : Bytes → Type 0
IsInert s = All (λ c. inert c ≡ true) s

escape_byte-IsInert : (c : ℕ) → IsInert (escape_byte c)
unfolding escape_byte inert
escape_byte-IsInert c = ground arith

-- Escaped text has no `<`, no `>`, no `"` and no `'`.
pub escape_html-IsInert : (s : Bytes) → IsInert (escape_html s)
unfolding escape_html
escape_html-IsInert [] = tt
escape_html-IsInert (c ∷ s) =
    All-append _ (escape_byte c) (escape_html s) (escape_byte-IsInert c) (escape_html-IsInert s)

escape_byte_first :
    (c d : ℕ) (a b : Bytes) → escape_byte c ++ a ≡ escape_byte d ++ b → (c ≡ d) × (a ≡ b)
unfolding escape_byte
escape_byte_first c d a b h = ground arith

escape_byte_ne : (c : ℕ) (a : Bytes) → escape_byte c ++ a ≢ []
unfolding escape_byte
escape_byte_ne c a h = ground arith

-- Different texts are escaped differently, so a reader of the page sees the text itself.
pub escape_html-injective : (s t : Bytes) → escape_html s ≡ escape_html t → s ≡ t
unfolding escape_html
escape_html-injective [] [] h = refl
escape_html-injective [] (d ∷ t) h = absurd (escape_byte_ne d _ (sym h))
escape_html-injective (c ∷ s) [] h = absurd (escape_byte_ne c _ h)
escape_html-injective (c ∷ s) (d ∷ t) h =
    let (same, rest) = escape_byte_first c d (escape_html s) (escape_html t) h in
    cc (same, escape_html-injective s t rest)

unfoldable pub unreserved : ℕ → Bool
unreserved c =
    within b'0' b'9' c
    || within b'A' b'Z' c
    || within b'a' b'z' c
    || c == b'*'
    || c == b'-'
    || c == b'.'
    || c == b'_'

unfoldable pub hex_of : ℕ → ℕ
hex_of d = if ltb d 10 then d + b'0' else d + 55

-- What a browser sends for a text in a form, `application/x-www-form-urlencoded`: each byte as it is if it is
-- a letter, a digit, `*`, `-`, `.` or `_`, a space as `+`, else `%` and two digits.
unfoldable pub sent : Bytes → Bytes
sent [] = []
sent (c ∷ s) =
    if unreserved c
    then c ∷ sent s
    else if c == b' '
    then b'+' ∷ sent s
    else b'%' ∷ hex_of (c / 16) ∷ hex_of (c % 16) ∷ sent s

url_decode-plain :
    (c : ℕ) (s : Bytes)
    → unreserved c ≡ true
    → url_decode (c ∷ s) ≡ cons_decoded (some c) (url_decode s)
unfolding url_decode cons_decoded unreserved
url_decode-plain c [] h = ground arith
url_decode-plain c (d ∷ []) h = ground arith
url_decode-plain c (d ∷ e ∷ s) h = ground arith

url_decode-plus : (s : Bytes) → url_decode (b'+' ∷ s) ≡ cons_decoded (some b' ') (url_decode s)
unfolding url_decode cons_decoded
url_decode-plus [] = refl
url_decode-plus (d ∷ []) = refl
url_decode-plus (d ∷ e ∷ s) = refl

hex_digit-hex_of : (d : ℕ) → d < 16 → hex_digit (hex_of d) ≡ some d
unfolding hex_digit hex_of
hex_digit-hex_of d h = ground arith

url_decode-coded :
    (c : ℕ) (s t : Bytes)
    → c < 256
    → url_decode s ≡ some t
    → url_decode (b'%' ∷ hex_of (c / 16) ∷ hex_of (c % 16) ∷ s) ≡ some (c ∷ t)
unfolding url_decode hex_pair cons_decoded
url_decode-coded c s t b h =
    rw (hex_digit-hex_of (c / 16) (omega arith), hex_digit-hex_of (c % 16) (omega arith), h)
      (ap (λ x. some (x ∷ t)) (omega arith))

cons_decoded-some :
    (c : ℕ) (s t : Bytes)
    → url_decode s ≡ some t
    → cons_decoded (some c) (url_decode s) ≡ some (c ∷ t)
unfolding cons_decoded
cons_decoded-some c s t h = rw h refl

-- Decoding what a browser sends for a text of bytes gives the text.
pub url_decode-sent : (s : Bytes) → All IsByte s → url_decode (sent s) ≡ some s
unfolding sent
url_decode-sent [] h = unfold url_decode in refl
url_decode-sent (c ∷ s) (b, h) =
    let rest = url_decode-sent s h in
    elim (Bool-cases (unreserved c)) [
      | inl plain ↦
          rw plain (url_decode-plain c (sent s) plain ∙ cons_decoded-some c (sent s) s rest)
      | inr coded ↦ elim (Bool-cases (c == b' ')) [
        | inl space ↦
            rw (coded, space)
              (url_decode-plus (sent s)
                ∙ cons_decoded-some b' ' (sent s) s rest
                ∙ ap (λ x. some (x ∷ s)) (ground arith))
        | inr other ↦ rw (coded, other) (url_decode-coded c (sent s) s b rest)
      ]
    ]
