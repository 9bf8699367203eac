-- ===== src/Json/Scanner.antt =====
-- src/json.cpp: the members of `Parser` that do not call one another. An offset is the text from it on, so
-- that a failure carries the text left where it was found.
use shadow_se.Base.{
  ℕ, zero, suc, ◌+◌, ◌-◌, ◌*◌, Bool, not, ◌||◌, Option, none, some, [], ◌∷◌, ◌++◌, ltb, ◌==◌,
  within, if◌then◌else◌, length, drop, Bytes, codes, starts_with, span_until,
}
use shadow_se.Tokenizer.{encode}
use shadow_se.Web.{hex_digit}

-- A result with the text behind it; a failure with its message; the end of the fuel.
pub data Parsed {ℓ} (A : Type ℓ) : Type ℓ where
  good : A → Bytes → Parsed A
  bad : Bytes → Bytes → Parsed A
  spent : Parsed A

module _ {A B : Type 0} where
  unfoldable pub then_parse : Parsed A → (A → Bytes → Parsed B) → Parsed B
  then_parse (good a rest) next = next a rest
  then_parse (bad rest message) next = bad rest message
  then_parse spent next = spent

  unfoldable pub map_parsed : (A → B) → Parsed A → Parsed B
  map_parsed f (good a rest) = good (f a) rest
  map_parsed f (bad rest message) = bad rest message
  map_parsed f spent = spent

module _ {A : Type 0} where
  -- `if (!p) return fail(message)`
  unfoldable pub or_fail : Bytes → Parsed A → Parsed A
  or_fail message (good a rest) = good a rest
  or_fail message (bad rest m) = bad rest message
  or_fail message spent = spent

unfoldable pub is_ws : ℕ → Bool
is_ws c = c == b' ' || c == 9 || c == 10 || c == 13

unfoldable pub skip_ws : Bytes → Bytes
unfolding is_ws
skip_ws [] = []
skip_ws (c ∷ s) = if is_ws c then skip_ws s else c ∷ s

-- `expect`: the text behind the byte.
unfoldable pub expect : ℕ → Bytes → Option Bytes
expect c [] = none
expect c (x ∷ s) = if x == c then some s else none

unfoldable pub not_digit : ℕ → Bool
not_digit c = not (within b'0' b'9' c)

-- What is read, and the text from there on.
unfoldable pub digits : Bytes → Bytes × Bytes
unfolding not_digit
digits s = span_until not_digit s

unfoldable pub take_minus : Bytes → Bytes × Bytes
take_minus [] = ([], [])
take_minus (c ∷ s) = if c == b'-' then (c ∷ [], s) else ([], c ∷ s)

unfoldable pub take_sign : Bytes → Bytes × Bytes
take_sign [] = ([], [])
take_sign (c ∷ s) = if c == b'+' || c == b'-' then (c ∷ [], s) else ([], c ∷ s)

unfoldable pub take_fraction : Bytes → Bytes × Bytes
unfolding digits
take_fraction [] = ([], [])
take_fraction (c ∷ s) =
    let (ds, rest) = digits s in if c == b'.' then (c ∷ ds, rest) else ([], c ∷ s)

unfoldable pub take_exponent : Bytes → Bytes × Bytes
unfolding digits take_sign
take_exponent [] = ([], [])
take_exponent (c ∷ s) =
    let (sign, behind) = take_sign s in
    let (ds, rest) = digits behind in
    if c == b'e' || c == b'E' then (c ∷ (sign ++ ds), rest) else ([], c ∷ s)

-- The text behind the sign of a number.
unfoldable pub take_unsigned : Bytes → Bytes × Bytes
unfolding digits take_fraction take_exponent
take_unsigned s =
    let (whole, s1) = digits s in
    let (fraction, s2) = take_fraction s1 in
    let (exponent, s3) = take_exponent s2 in (whole ++ (fraction ++ exponent), s3)

-- A `\u` escape's digits: `v <<= 4; v |= digit`.
unfoldable pub hex_from : ℕ → ℕ → Bytes → Parsed ℕ
hex_from zero v s = good v s
hex_from (suc n) v [] = bad [] []
hex_from (suc n) v (c ∷ s) = elim (hex_digit c) [
  | none ↦ bad s []
  | some d ↦ hex_from n (v * 16 + d) s
]

unfoldable pub read_hex4 : Bytes → Parsed ℕ
unfolding hex_from
read_hex4 s = if ltb (length s) 4 then bad s [] else hex_from 4 0 s

unfoldable pub join_low : ℕ → ℕ → Bytes → Parsed Bytes
join_low cp low rest =
    if within 0xDC00 0xDFFF low
    then good (encode (0x10000 + (cp - 0xD800) * 1024 + (low - 0xDC00))) rest
    else bad rest (codes "bad low surrogate")

unfoldable pub surrogate : ℕ → Bytes → Parsed Bytes
unfolding join_low
surrogate cp s =
    if starts_with (codes "\\u") s
    then then_parse (or_fail (codes "bad low surrogate") (read_hex4 (drop 2 s))) (join_low cp)
    else bad s (codes "missing low surrogate")

unfoldable pub code_unit : ℕ → Bytes → Parsed Bytes
unfolding surrogate
code_unit cp s = if within 0xD800 0xDBFF cp then surrogate cp s else good (encode cp) s

-- The escapes of one byte.
unfoldable pub simple_escape : ℕ → Option ℕ
simple_escape e =
    if e == 34 || e == 92 || e == b'/'
    then some e
    else if e == b'b'
    then some 8
    else if e == b'f'
    then some 12
    else if e == b'n'
    then some 10
    else if e == b'r'
    then some 13
    else if e == b't'
    then some 9
    else none

unfoldable pub other_escape : ℕ → Bytes → Parsed Bytes
unfolding code_unit
other_escape e s =
    if e == b'u'
    then then_parse (or_fail (codes "bad \\u escape") (read_hex4 s)) code_unit
    else bad s (codes "bad escape character")

unfoldable pub escaped : Option ℕ → ℕ → Bytes → Parsed Bytes
unfolding other_escape
escaped none e s = other_escape e s
escaped (some c) e s = good (c ∷ []) s

-- What an escape stands for, from the byte behind the `\`.
unfoldable pub escape : Bytes → Parsed Bytes
unfolding simple_escape escaped
escape [] = bad [] (codes "bad escape")
escape (e ∷ s) = escaped (simple_escape e) e s

-- One round of the string's loop: `none` for the closing quote, or the bytes that are appended.
unfoldable pub string_step : ℕ → Bytes → Parsed (Option Bytes)
unfolding escape
string_step c s =
    if c == 34
    then good none s
    else if c == 92
    then map_parsed some (escape s)
    else if ltb c 0x20
    then bad s (codes "control char in string")
    else good (some (c ∷ [])) s

unfoldable pub string_more : (Bytes → Parsed Bytes) → Option Bytes → Bytes → Parsed Bytes
string_more more none rest = good [] rest
string_more more (some bytes) rest = map_parsed (λ value. bytes ++ value) (more rest)

unfoldable pub string_from : ℕ → Bytes → Parsed Bytes
unfolding string_step string_more
string_from n [] = bad [] (codes "unterminated string")
string_from zero (c ∷ s) = spent
string_from (suc n) (c ∷ s) =
    then_parse (string_step c s) (string_more (λ rest. string_from n rest))

unfoldable pub string_behind : Bytes → Option Bytes → Parsed Bytes
string_behind s none = bad s (codes "expected string")
string_behind s (some behind) = string_from (length behind) behind

unfoldable pub parse_string : Bytes → Parsed Bytes
unfolding expect string_behind
parse_string s = string_behind s (expect 34 s)
