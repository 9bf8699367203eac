-- ===== src/Json/Scan.antt =====
-- src/json.cpp: `parseNumber` on the text of a number with something behind it.
use shadow_se.Base.{
  ℕ, ◌≡◌, refl, sym, ap, ◌∙◌, inl, inr, Bool, true, false, Bool-cases, ◌||◌, [], ◌∷◌, ◌++◌,
  append_assoc, append-nil, ◌==◌, within, Bytes, is_empty, same_bytes, span_until, arith,
}
use shadow_se.Json.{number, Numbers, number_text}
use shadow_se.Json.Scanner.{
  good, not_digit, digits, take_minus, take_sign, take_fraction, take_exponent, take_unsigned,
}
use shadow_se.Json.Parse.{number_result, parse_number}

-- Every byte of a number can be read by the scanners.
unfoldable pub goes_on : ℕ → Bool
goes_on c = within b'0' b'9' c || c == b'.' || c == b'e' || c == b'E' || c == b'+' || c == b'-'

-- The text does not go on as a number.
abbrev pub IsDelimited : Bytes → Type 0
IsDelimited [] = Unit
IsDelimited (c ∷ s) = goes_on c ≡ false

-- What the scanner `f` takes from `s` is what it takes from `s` alone.
abbrev IsStable : (Bytes → Bytes × Bytes) → Bytes → Bytes → Type 0
IsStable f s r = f (s ++ r) ≡ ((f s).0, (f s).1 ++ r)

digits-IsStable : (s r : Bytes) → IsDelimited r → IsStable digits s r
unfolding digits span_until not_digit goes_on
digits-IsStable [] [] h = refl
digits-IsStable [] (c ∷ r) h = ground arith
digits-IsStable (c ∷ s) r h = elim (Bool-cases (not_digit c)) [
  | inl e ↦ rw e refl
  | inr e ↦ rw (e, digits-IsStable s r h) refl
]

take_sign-IsStable : (s r : Bytes) → IsDelimited r → IsStable take_sign s r
unfolding take_sign goes_on
take_sign-IsStable [] [] h = refl
take_sign-IsStable [] (c ∷ r) h = ground arith
take_sign-IsStable (c ∷ s) r h = ground arith

take_minus-IsStable : (s r : Bytes) → IsDelimited r → IsStable take_minus s r
unfolding take_minus goes_on
take_minus-IsStable [] [] h = refl
take_minus-IsStable [] (c ∷ r) h = ground arith
take_minus-IsStable (c ∷ s) r h = ground arith

take_fraction-IsStable : (s r : Bytes) → IsDelimited r → IsStable take_fraction s r
unfolding take_fraction goes_on
take_fraction-IsStable [] [] h = refl
take_fraction-IsStable [] (c ∷ r) h = ground arith
take_fraction-IsStable (c ∷ s) r h = rw (digits-IsStable s r h) (ground arith)

take_exponent-IsStable : (s r : Bytes) → IsDelimited r → IsStable take_exponent s r
unfolding take_exponent goes_on
take_exponent-IsStable [] [] h = refl
take_exponent-IsStable [] (c ∷ r) h = ground arith
take_exponent-IsStable (c ∷ s) r h =
    rw (take_sign-IsStable s r h, digits-IsStable (take_sign s).1 r h) (ground arith)

take_unsigned-IsStable : (s r : Bytes) → IsDelimited r → IsStable take_unsigned s r
unfolding take_unsigned
take_unsigned-IsStable s r h =
    let s1 = (digits s).1 in
    let s2 = (take_fraction s1).1 in
    rw (digits-IsStable s r h, take_fraction-IsStable s1 r h, take_exponent-IsStable s2 r h) refl

-- The parts that the scanners take make up the text.

span-append : (test : ℕ → Bool) (s : Bytes) → (span_until test s).0 ++ (span_until test s).1 ≡ s
unfolding span_until
span-append test [] = refl
span-append test (c ∷ s) = ground (arith, span-append test s)

digits-append : (s : Bytes) → (digits s).0 ++ (digits s).1 ≡ s
unfolding digits
digits-append s = span-append not_digit s

take_minus-append : (s : Bytes) → (take_minus s).0 ++ (take_minus s).1 ≡ s
unfolding take_minus
take_minus-append [] = refl
take_minus-append (c ∷ s) = ground arith

take_sign-append : (s : Bytes) → (take_sign s).0 ++ (take_sign s).1 ≡ s
unfolding take_sign
take_sign-append [] = refl
take_sign-append (c ∷ s) = ground arith

take_fraction-append : (s : Bytes) → (take_fraction s).0 ++ (take_fraction s).1 ≡ s
unfolding take_fraction
take_fraction-append [] = refl
take_fraction-append (c ∷ s) = ground (arith, digits-append s)

take_exponent-append : (s : Bytes) → (take_exponent s).0 ++ (take_exponent s).1 ≡ s
unfolding take_exponent
take_exponent-append [] = refl
take_exponent-append (c ∷ s) =
    let sign = take_sign s in
    let ds = digits sign.1 in
    let whole : (sign.0 ++ ds.0) ++ ds.1 ≡ s =
      append_assoc sign.0 ds.0 ds.1
      ∙ (ap (λ t. sign.0 ++ t) (digits-append sign.1) ∙ take_sign-append s) in
    ground (arith, whole)

take_unsigned-append : (s : Bytes) → (take_unsigned s).0 ++ (take_unsigned s).1 ≡ s
unfolding take_unsigned
take_unsigned-append s =
    let whole = digits s in
    let fraction = take_fraction whole.1 in
    let exponent = take_exponent fraction.1 in
    simp append_assoc
      (rw (take_exponent-append fraction.1, take_fraction-append whole.1, digits-append s) refl)

-- The first byte of a number.
unfoldable pub opens_number : Bytes → Bool
opens_number [] = false
opens_number (c ∷ s) = c == b'-' || within b'0' b'9' c

behind_minus :
    (s : Bytes)
    → opens_number s ≡ true
    → same_bytes s (b'-' ∷ []) ≡ false
    → is_empty (take_minus s).1 ≡ false
unfolding opens_number take_minus same_bytes
behind_minus [] h k = absurd (cc)
behind_minus (c ∷ []) h k = ground arith
behind_minus (c ∷ d ∷ s) h k = ground arith

is_empty-append : (s r : Bytes) → is_empty s ≡ false → is_empty (s ++ r) ≡ false
is_empty-append [] r h = absurd (cc)
is_empty-append (c ∷ s) r h = refl

opens-is_empty : (s : Bytes) → opens_number s ≡ true → is_empty s ≡ false
unfolding opens_number
opens-is_empty [] h = absurd (cc)
opens-is_empty (c ∷ s) h = refl

module _ {D : Type 0} (numbers : Numbers D) where
  -- The printed text of the number is a number for the scanners.
  abbrev pub IsReadable : D → Type 0
  IsReadable n =
      let printed = number_text numbers n in
      (opens_number printed ≡ true)
      × (same_bytes printed (b'-' ∷ []) ≡ false)
      × ((take_unsigned (take_minus printed).1).1 ≡ [])

  -- The number that `strtod` reads from the printed text.
  unfoldable pub reread : D → D
  reread n = numbers.strtod (number_text numbers n)

  number_result-whole :
      (minus behind unsigned r printed : Bytes)
      → is_empty behind ≡ false
      → minus ++ unsigned ≡ printed
      → opens_number printed ≡ true
      → same_bytes printed (b'-' ∷ []) ≡ false
      → number_result numbers minus behind (unsigned, r) ≡ good (number (numbers.strtod printed)) r
  unfolding number_result
  number_result-whole minus behind unsigned r printed h whole opens other =
      rw (h, whole, opens-is_empty printed opens, other) refl

  pub parse_number-reread :
      (n : D) (r : Bytes)
      → IsReadable n
      → IsDelimited r
      → parse_number numbers (number_text numbers n ++ r) ≡ good (number (reread n)) r
  unfolding parse_number reread
  parse_number-reread n r h k =
      let t = number_text numbers n in
      let minus = (take_minus t).0 in
      let behind = (take_minus t).1 in
      let u = take_unsigned behind in
      let all : u.0 ≡ behind =
        sym (append-nil u.0) ∙ (ap (λ e. u.0 ++ e) (sym h.2) ∙ take_unsigned-append behind) in
      let whole : minus ++ u.0 ≡ t = ap (λ e. minus ++ e) all ∙ take_minus-append t in
      let scanned : take_unsigned (behind ++ r) ≡ (u.0, r) =
        take_unsigned-IsStable behind r k ∙ ap (λ e. (u.0, e ++ r)) h.2 in
      ap (λ m. number_result numbers m.0 m.1 (take_unsigned m.1)) (take_minus-IsStable t r k)
      ∙ (ap (λ e. number_result numbers minus (behind ++ r) e) scanned
          ∙ number_result-whole minus (behind ++ r) u.0 r t
              (is_empty-append behind r (behind_minus t h.0 h.1)) whole h.0 h.1)
