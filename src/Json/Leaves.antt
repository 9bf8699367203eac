-- ===== src/Json/Leaves.antt =====
-- src/json.cpp: what is left behind the results of the parser's scanners.
use shadow_se.Base.{
  ℕ, zero, suc, ◌+◌, ◌-◌, ◌*◌, ◌≤◌, ◌≡◌, inl, inr, Bool, true, false, Bool-cases, ◌||◌, Option,
  none, some, [], ◌∷◌, ◌++◌, ltb, ◌==◌, within, if◌then◌else◌, length, length-append, length-drop,
  drop, Bytes, codes, is_empty, same_bytes, starts_with, span_until, arith,
}
use shadow_se.Web.{hex_digit}
use shadow_se.Json.{Value, null, boolean, text, Numbers}
use shadow_se.Json.Scanner.{
  Parsed, good, bad, spent, then_parse, map_parsed, or_fail, skip_ws, expect, not_digit, digits,
  take_minus, take_sign, take_fraction, take_exponent, take_unsigned, hex_from, read_hex4, join_low,
  surrogate, code_unit, simple_escape, other_escape, escaped, escape, string_step, string_more,
  string_from, string_behind, parse_string,
}
use shadow_se.Json.Parse.{parse_literal, number_result, parse_number, parse_scalar}

-- The fuel did not run out, and at most `k` bytes are left behind a result.
abbrev pub Leaves {ℓ} : {A : Type ℓ} → ℕ → Parsed A → Type 0
Leaves k (good a rest) = length rest ≤ k
Leaves k (bad rest message) = Unit
Leaves k spent = ⊥

module _ {A B : Type 0} where
  pub then_parse-Leaves :
      (j k : ℕ) (p : Parsed A) (next : A → Bytes → Parsed B)
      → Leaves j p
      → ((a : A) (rest : Bytes) → length rest ≤ j → Leaves k (next a rest))
      → Leaves k (then_parse p next)
  unfolding then_parse
  then_parse-Leaves j k (good a rest) next h follow = follow a rest h
  then_parse-Leaves j k (bad rest message) next h follow = tt
  then_parse-Leaves j k spent next h follow = h

  pub map_parsed-Leaves :
      (k : ℕ) (f : A → B) (p : Parsed A) → Leaves k p → Leaves k (map_parsed f p)
  unfolding map_parsed
  map_parsed-Leaves k f (good a rest) h = h
  map_parsed-Leaves k f (bad rest message) h = tt
  map_parsed-Leaves k f spent h = h

module _ {A : Type 0} where
  pub or_fail-Leaves :
      (k : ℕ) (message : Bytes) (p : Parsed A) → Leaves k p → Leaves k (or_fail message p)
  unfolding or_fail
  or_fail-Leaves k message (good a rest) h = h
  or_fail-Leaves k message (bad rest m) h = tt
  or_fail-Leaves k message spent h = h

  pub either-Leaves :
      (k : ℕ) (test : Bool) (p q : Parsed A)
      → Leaves k p
      → Leaves k q
      → Leaves k (if test then p else q)
  either-Leaves k true p q h g = h
  either-Leaves k false p q h g = g

  pub Leaves-le : (j k : ℕ) (p : Parsed A) → j ≤ k → Leaves j p → Leaves k p
  Leaves-le j k (good a rest) h g = omega arith
  Leaves-le j k (bad rest message) h g = tt
  Leaves-le j k spent h g = g

pub skip_ws-length : (s : Bytes) → length (skip_ws s) ≤ length s
unfolding skip_ws
skip_ws-length [] = omega arith
skip_ws-length (c ∷ s) = ground (arith, skip_ws-length s)

-- The scanners of a number keep every byte.

pub span-length :
    (test : ℕ → Bool) (s : Bytes)
    → length (span_until test s).0 + length (span_until test s).1 ≡ length s
unfolding span_until
span-length test [] = omega arith
span-length test (c ∷ s) = ground (arith, span-length test s)

pub digits-length : (s : Bytes) → length (digits s).0 + length (digits s).1 ≡ length s
unfolding digits
digits-length s = span-length not_digit s

pub take_minus-length : (s : Bytes) → length (take_minus s).0 + length (take_minus s).1 ≡ length s
unfolding take_minus
take_minus-length [] = omega arith
take_minus-length (c ∷ s) = ground arith

pub take_sign-length : (s : Bytes) → length (take_sign s).0 + length (take_sign s).1 ≡ length s
unfolding take_sign
take_sign-length [] = omega arith
take_sign-length (c ∷ s) = ground arith

pub take_fraction-length :
    (s : Bytes) → length (take_fraction s).0 + length (take_fraction s).1 ≡ length s
unfolding take_fraction
take_fraction-length [] = omega arith
take_fraction-length (c ∷ s) = ground (arith, digits-length s)

pub take_exponent-length :
    (s : Bytes) → length (take_exponent s).0 + length (take_exponent s).1 ≡ length s
unfolding take_exponent
take_exponent-length [] = omega arith
take_exponent-length (c ∷ s) =
    let sign = (take_sign s).0 in
    let ds = digits (take_sign s).1 in
    ground (arith, take_sign-length s, digits-length (take_sign s).1, length-append sign ds.0)

pub take_unsigned-length :
    (s : Bytes) → length (take_unsigned s).0 + length (take_unsigned s).1 ≡ length s
unfolding take_unsigned
take_unsigned-length s =
    let whole = digits s in
    let fraction = take_fraction whole.1 in
    let exponent = take_exponent fraction.1 in
    omega (
      arith,
      digits-length s,
      take_fraction-length whole.1,
      take_exponent-length fraction.1,
      length-append whole.0 (fraction.0 ++ exponent.0),
      length-append fraction.0 exponent.0,
    )

-- Strings.

pub hex_from-Leaves : (n v : ℕ) (s : Bytes) → Leaves (length s) (hex_from n v s)
unfolding hex_from
hex_from-Leaves zero v s = omega arith
hex_from-Leaves (suc n) v [] = tt
hex_from-Leaves (suc n) v (c ∷ s) =
    elim (hex_digit c)
      as (λ digit.
        Leaves (suc (length s))
          (elim digit [ none ↦ bad s [] | some d ↦ hex_from n (v * 16 + d) s ])) [
            | none ↦ tt
            | some d ↦
                Leaves-le (length s) (suc (length s)) _ (omega arith)
                  (hex_from-Leaves n (v * 16 + d) s)
          ]

pub read_hex4-Leaves : (s : Bytes) → Leaves (length s) (read_hex4 s)
unfolding read_hex4
read_hex4-Leaves s = either-Leaves (length s) (ltb (length s) 4) _ _ tt (hex_from-Leaves 4 0 s)

pub code_unit-Leaves : (cp : ℕ) (s : Bytes) → Leaves (length s) (code_unit cp s)
unfolding code_unit surrogate join_low
code_unit-Leaves cp s =
    either-Leaves (length s) (within 0xD800 0xDBFF cp) _ _
      (either-Leaves (length s) (starts_with (codes "\\u") s) _ _
        (then_parse-Leaves (length s) (length s) _ _
          (or_fail-Leaves (length s) _ _ (
            Leaves-le (length (drop 2 s)) (length s) _ (omega (arith, length-drop 2 s))
              (read_hex4-Leaves (drop 2 s))))
          (λ low rest h. either-Leaves (length s) (within 0xDC00 0xDFFF low) _ _ h tt))
        tt)
      (omega arith)

pub escaped-Leaves : (c : Option ℕ) (e : ℕ) (s : Bytes) → Leaves (length s) (escaped c e s)
unfolding escaped other_escape
escaped-Leaves none e s =
    either-Leaves (length s) (e == b'u') _ _
      (then_parse-Leaves (length s) (length s) _ _
        (or_fail-Leaves (length s) _ _ (read_hex4-Leaves s))
        (λ cp rest h. Leaves-le (length rest) (length s) _ h (code_unit-Leaves cp rest)))
      tt
escaped-Leaves (some c) e s = omega arith

pub escape-Leaves : (s : Bytes) → Leaves (length s) (escape s)
unfolding escape
escape-Leaves [] = tt
escape-Leaves (e ∷ s) =
    Leaves-le (length s) (suc (length s)) _ (omega arith) (escaped-Leaves (simple_escape e) e s)

pub string_step-Leaves : (c : ℕ) (s : Bytes) → Leaves (length s) (string_step c s)
unfolding string_step
string_step-Leaves c s = either-Leaves (length s) (c == 34) _ _ (omega arith) (
    either-Leaves (length s) (c == 92) _ _ (map_parsed-Leaves (length s) some _ (escape-Leaves s))
      (either-Leaves (length s) (ltb c 0x20) _ _ tt (omega arith)))

pub string_more-Leaves :
    (k : ℕ) (more : Bytes → Parsed Bytes) (o : Option Bytes) (rest : Bytes)
    → length rest ≤ k
    → Leaves k (more rest)
    → Leaves k (string_more more o rest)
unfolding string_more
string_more-Leaves k more none rest h g = h
string_more-Leaves k more (some bytes) rest h g = map_parsed-Leaves k _ (more rest) g

pub string_from-Leaves : (n : ℕ) (s : Bytes) → length s ≤ n → Leaves (length s) (string_from n s)
unfolding string_from
string_from-Leaves n [] h = tt
string_from-Leaves zero (c ∷ s) h = absurd (omega arith)
string_from-Leaves (suc n) (c ∷ s) h =
    let k = suc (length s) in
    then_parse-Leaves (length s) k (string_step c s) _ (string_step-Leaves c s) (λ o rest le.
      string_more-Leaves k _ o rest (omega arith) (
        Leaves-le (length rest) k (string_from n rest) (omega arith)
          (string_from-Leaves n rest (omega arith))))

pub expect-length :
    (c : ℕ) (s behind : Bytes) → expect c s ≡ some behind → suc (length behind) ≡ length s
unfolding expect
expect-length c [] behind h = absurd (cc)
expect-length c (x ∷ s) behind h = ground arith

pub parse_string-Leaves : (s : Bytes) → Leaves (length s - 1) (parse_string s)
unfolding parse_string string_behind expect
parse_string-Leaves [] = tt
parse_string-Leaves (c ∷ s) = elim (Bool-cases (c == 34)) [
  | inl e ↦ rw e (
      Leaves-le (length s) (suc (length s) - 1) (string_from (length s) s) (omega arith)
        (string_from-Leaves (length s) s (omega arith)))
  | inr e ↦ rw e tt
]

-- Numbers and the other scalars.

pub is_empty-length : (s : Bytes) → is_empty s ≡ false → 1 ≤ length s
is_empty-length [] h = absurd (cc)
is_empty-length (c ∷ s) h = omega arith

pub parse_number-Leaves :
    {D : Type 0} (numbers : Numbers D) (s : Bytes) → Leaves (length s - 1) (parse_number numbers s)
unfolding parse_number number_result
parse_number-Leaves numbers s =
    let minus = (take_minus s).0 in
    let behind = (take_minus s).1 in
    let num = minus ++ (take_unsigned behind).0 in
    let k = length s - 1 in
    either-Leaves k (is_empty behind) _ _ tt (elim (Bool-cases (is_empty num)) [
      | inl e ↦ rw e tt
      | inr e ↦ rw e (
          either-Leaves k (same_bytes num (b'-' ∷ [])) _ _ tt (
            omega (
              arith,
              is_empty-length num e,
              take_minus-length s,
              take_unsigned-length behind,
              length-append minus (take_unsigned behind).0,
            )))
    ])

pub parse_literal-Leaves :
    {D : Type 0} (literal : Bytes) (v : Value D) (s : Bytes)
    → 1 ≤ length literal
    → Leaves (length s - 1) (parse_literal literal v s)
unfolding parse_literal
parse_literal-Leaves literal v s h =
    either-Leaves (length s - 1) (starts_with literal s) _ _
      (omega (arith, length-drop (length literal) s)) tt

pub parse_scalar-Leaves :
    {D : Type 0} (numbers : Numbers D) (c : ℕ) (s : Bytes)
    → Leaves (length s - 1) (parse_scalar numbers c s)
unfolding parse_scalar
parse_scalar-Leaves numbers c s =
    let k = length s - 1 in
    either-Leaves k (c == 34) _ _ (map_parsed-Leaves k text _ (parse_string-Leaves s)) (
      either-Leaves k (c == b't') _ _
        (parse_literal-Leaves (codes "true") (boolean true) s (omega arith))
        (either-Leaves k (c == b'f') _ _
          (parse_literal-Leaves (codes "false") (boolean false) s (omega arith))
          (either-Leaves k (c == b'n') _ _
            (parse_literal-Leaves (codes "null") null s (omega arith))
            (either-Leaves k (c == b'-' || within b'0' b'9' c) _ _ (parse_number-Leaves numbers s)
              tt))))
