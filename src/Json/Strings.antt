-- ===== src/Json/Strings.antt =====
-- src/json.cpp: `parseString` on what `escapeString` writes.
use shadow_se.Base.{
  ℕ, zero, suc, ◌+◌, ◌*◌, ◌/◌, ◌%◌, ◌≤◌, ◌<◌, ◌≡◌, refl, subst, ap, ◌∙◌, inl, inr, true, false,
  Bool-cases, none, some, [], ◌∷◌, ◌++◌, append_assoc, ltb, ◌==◌, length, length-append, Bytes,
  codes, arith,
}
use shadow_se.Tokenizer.{encode}
use shadow_se.Web.{hex_digit}
use shadow_se.Json.{hex_char, escape_byte, escape_string, quoted}
use shadow_se.Json.Scanner.{
  good, bad, then_parse, map_parsed, or_fail, hex_from, read_hex4, code_unit, string_step,
  string_from, string_behind, parse_string, expect,
}

-- The two digits that are written for a control byte.
hex_chars :
    (c : ℕ)
    → ltb c 0x20 ≡ true
    → (hex_digit (hex_char (c / 16)) ≡ some (c / 16))
      × (hex_digit (hex_char (c % 16)) ≡ some (c % 16))
unfolding hex_digit hex_char
hex_chars c h = (ground arith, ground arith)

hex_from-digit :
    (n v a x : ℕ) (t : Bytes)
    → hex_digit a ≡ some x
    → hex_from (suc n) v (a ∷ t) ≡ hex_from n (v * 16 + x) t
unfolding hex_from
hex_from-digit n v a x t h =
    λ i. elim (h i) [ none ↦ bad t [] | some d ↦ hex_from n (v * 16 + d) t ]

read_hex4-digits :
    (a b x y : ℕ) (t : Bytes)
    → hex_digit a ≡ some x
    → hex_digit b ≡ some y
    → read_hex4 (b'0' ∷ b'0' ∷ a ∷ b ∷ t) ≡ good (x * 16 + y) t
unfolding read_hex4 hex_from hex_digit
read_hex4-digits a b x y t h k =
    let long : ltb (length (48 ∷ 48 ∷ a ∷ b ∷ t)) 4 ≡ false = ground arith in
    rw (read_hex4, long)
      (hex_from-digit 1 0 a x (b ∷ t) h
        ∙ (hex_from-digit 0 (0 * 16 + x) b y t k ∙ ap (λ v. good v t) (omega arith)))

-- What the loop does with an escaped byte: it takes it for the byte itself.
abbrev IsRead : ℕ → Type 0
IsRead c =
    (n : ℕ) (t : Bytes)
    → string_from (suc n) (escape_byte c ++ t) ≡ map_parsed (λ value. c ∷ value) (string_from n t)

named-IsRead : IsRead 34 × IsRead 92 × IsRead 8 × IsRead 12 × IsRead 10 × IsRead 13 × IsRead 9
unfolding string_from escape_byte map_parsed then_parse
named-IsRead =
    (λ n t. refl, λ n t. refl, λ n t. refl, λ n t. refl, λ n t. refl, λ n t. refl, λ n t. refl)

code_unit-ascii : (c : ℕ) (t : Bytes) → ltb c 0x20 ≡ true → code_unit c t ≡ good (c ∷ []) t
unfolding code_unit encode
code_unit-ascii c t h = ground arith

control-IsRead :
    (c n : ℕ) (t : Bytes)
    → ltb c 0x20 ≡ true
    → string_from (suc n) (codes "\\u00" ++ hex_char (c / 16) ∷ hex_char (c % 16) ∷ t)
      ≡ map_parsed (λ value. c ∷ value) (string_from n t)
unfolding string_from then_parse map_parsed or_fail
control-IsRead c n t h =
    let both = hex_chars c h in
    let value : read_hex4 (b'0' ∷ b'0' ∷ hex_char (c / 16) ∷ hex_char (c % 16) ∷ t) ≡ good c t =
      read_hex4-digits _ _ (c / 16) (c % 16) t both.0 both.1 ∙ ap (λ v. good v t) (omega arith) in
    rw (value, code_unit-ascii c t h) refl

plain-IsRead :
    (c n : ℕ) (t : Bytes)
    → c == 34 ≡ false
    → c == 92 ≡ false
    → ltb c 0x20 ≡ false
    → string_from (suc n) (c ∷ t) ≡ map_parsed (λ value. c ∷ value) (string_from n t)
unfolding string_from string_step then_parse
plain-IsRead c n t h k g = rw (h, k, g) refl

unless : (c k : ℕ) → IsRead k → (c == k ≡ false → IsRead c) → IsRead c
unless c k h other = elim (Bool-cases (c == k)) [
  | inl e ↦ subst IsRead (ground (arith, e)) h
  | inr e ↦ other e
]

escape_byte-IsRead : (c : ℕ) → IsRead c
unfolding escape_byte
escape_byte-IsRead c =
    let (quote, backslash, b, f, n, r, t) = named-IsRead in
    unless c 34 quote (λ e1. unless c 92 backslash (λ e2. unless c 8 b (λ e3. unless c 12 f (λ e4.
      unless c 10 n (λ e5. unless c 13 r (λ e6. unless c 9 t (λ e7. elim (Bool-cases (ltb c 0x20)) [
        | inl low ↦ λ m s. rw (e1, e2, e3, e4, e5, e6, e7, low) (control-IsRead c m s low)
        | inr high ↦ λ m s. rw (e1, e2, e3, e4, e5, e6, e7, high) (plain-IsRead c m s e1 e2 high)
      ])))))))

string_from-close : (n : ℕ) (t : Bytes) → string_from (suc n) (34 ∷ t) ≡ good [] t
unfolding string_from then_parse
string_from-close n t = refl

string_from-escape :
    (n : ℕ) (s t : Bytes) → length s < n → string_from n (escape_string s ++ 34 ∷ t) ≡ good s t
unfolding escape_string map_parsed
string_from-escape zero s t h = absurd (omega arith)
string_from-escape (suc n) [] t h = string_from-close n t
string_from-escape (suc n) (c ∷ s) t h = rw append_assoc (
    escape_byte-IsRead c n (escape_string s ++ 34 ∷ t)
    ∙ rw (string_from-escape n s t (omega arith)) refl)

escape_byte-length : (c : ℕ) → 1 ≤ length (escape_byte c)
unfolding escape_byte
escape_byte-length c = ground arith

escape_string-length : (s : Bytes) → length s ≤ length (escape_string s)
unfolding escape_string
escape_string-length [] = omega arith
escape_string-length (c ∷ s) = omega (
  arith,
  escape_byte-length c,
  escape_string-length s,
  length-append (escape_byte c) (escape_string s),
)

-- For every string, the parser reads what is written for it back, with anything behind it.
pub parse_string-quoted : (s t : Bytes) → parse_string (quoted s ++ t) ≡ good s t
unfolding parse_string string_behind expect quoted
parse_string-quoted s t =
    let e = escape_string s in
    let behind : (e ++ 34 ∷ []) ++ t ≡ e ++ 34 ∷ t = append_assoc e (34 ∷ []) t in
    rw behind (
      string_from-escape (length (e ++ 34 ∷ t)) s t
        (omega (arith, escape_string-length s, length-append e (34 ∷ t))))
