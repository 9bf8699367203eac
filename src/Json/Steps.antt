-- ===== src/Json/Steps.antt =====
-- src/json.cpp: the parser on a text that starts as `dump` writes it.
use shadow_se.Base.{
  ℕ, zero, suc, ◌*◌, ◌≡◌, refl, ap, ◌∙◌, Bool, true, false, not, ◌&&◌, none, [], ◌∷◌, ◌++◌, ◌==◌,
  Bytes, arith,
}
use shadow_se.Json.{
  Value, Items, Fields, array, object, nil, cons, end, field, Numbers, spaces, newline_indent,
  quoted, colon,
}
use shadow_se.Json.Scanner.{good, then_parse, map_parsed, or_fail, is_ws, skip_ws, expect}
use shadow_se.Json.Parse.{
  item_more, field_more, behind_colon, field_value, array_items, object_fields, parse_array,
  parse_object, value_at, parse_value, parse_items, parse_fields,
}
use shadow_se.Json.Strings.{parse_string-quoted}

-- White space that may stand before a token.
abbrev pub IsBlank : Bytes → Type 0
IsBlank w = (s : Bytes) → skip_ws (w ++ s) ≡ skip_ws s

spaces-IsBlank : (n : ℕ) → IsBlank (spaces n)
unfolding spaces skip_ws is_ws
spaces-IsBlank zero s = refl
spaces-IsBlank (suc n) s = spaces-IsBlank n s

pub newline_indent-IsBlank : (pretty : Bool) (level : ℕ) → IsBlank (newline_indent pretty level)
unfolding newline_indent skip_ws is_ws
newline_indent-IsBlank true level s = spaces-IsBlank (level * 2) s
newline_indent-IsBlank false level s = refl

-- A text that starts with a value or a key: no white space, and no closing bracket.
unfoldable pub opens_value : Bytes → Bool
opens_value [] = false
opens_value (c ∷ s) = not (is_ws c) && not (c == b']') && not (c == b'}')

pub opens_value-append : (s r : Bytes) → opens_value s ≡ true → opens_value (s ++ r) ≡ true
unfolding opens_value
opens_value-append [] r h = absurd (cc)
opens_value-append (c ∷ s) r h = h

skip_ws-opens : (s : Bytes) → opens_value s ≡ true → skip_ws s ≡ s
unfolding opens_value skip_ws
skip_ws-opens [] h = absurd (cc)
skip_ws-opens (c ∷ s) h = ground arith

expect-opens : (s : Bytes) → opens_value s ≡ true → (expect b']' s ≡ none) × (expect b'}' s ≡ none)
unfolding opens_value expect
expect-opens [] h = absurd (cc)
expect-opens (c ∷ s) h = (ground arith, ground arith)

pub skip_ws-blank : (w s : Bytes) → IsBlank w → opens_value s ≡ true → skip_ws (w ++ s) ≡ s
skip_ws-blank w s h k = h s ∙ skip_ws-opens s k

pub quoted-opens : (s r : Bytes) → opens_value (quoted s ++ r) ≡ true
unfolding opens_value quoted is_ws
quoted-opens s r = refl

module _ {D : Type 0} (numbers : Numbers D) where
  pub parse_value-array :
      (n : ℕ) (w s r : Bytes) (xs : Items D)
      → IsBlank w
      → opens_value s ≡ true
      → parse_items numbers n s ≡ good xs r
      → parse_value numbers (suc n) (b'[' ∷ (w ++ s)) ≡ good (array xs) r
  unfolding parse_value value_at parse_array skip_ws is_ws array_items map_parsed
  parse_value-array n w s r xs blank opens h =
      rw (skip_ws-blank w s blank opens, (expect-opens s opens).0) (ap (map_parsed array) h)

  pub parse_value-object :
      (n : ℕ) (w s r : Bytes) (fs : Fields D)
      → IsBlank w
      → opens_value s ≡ true
      → parse_fields numbers n s ≡ good fs r
      → parse_value numbers (suc n) (b'{' ∷ (w ++ s)) ≡ good (object fs) r
  unfolding parse_value value_at parse_object skip_ws is_ws object_fields map_parsed
  parse_value-object n w s r fs blank opens h =
      rw (skip_ws-blank w s blank opens, (expect-opens s opens).1) (ap (map_parsed object) h)

  item_head :
      (n : ℕ) (w s rest : Bytes) (x : Value D)
      → IsBlank w
      → opens_value s ≡ true
      → parse_value numbers n s ≡ good x rest
      → parse_items numbers (suc n) (w ++ s)
        ≡ item_more x (λ t. parse_items numbers n t) (skip_ws rest)
  unfolding parse_items then_parse
  item_head n w s rest x blank opens h = rw (skip_ws-blank w s blank opens, h) refl

  pub parse_items-last :
      (n : ℕ) (w s rest r : Bytes) (x : Value D)
      → IsBlank w
      → opens_value s ≡ true
      → parse_value numbers n s ≡ good x rest
      → skip_ws rest ≡ b']' ∷ r
      → parse_items numbers (suc n) (w ++ s) ≡ good (cons x nil) r
  unfolding item_more
  parse_items-last n w s rest r x blank opens h k =
      item_head n w s rest x blank opens h ∙ ap (item_more x (λ t. parse_items numbers n t)) k

  pub parse_items-more :
      (n : ℕ) (w s rest r : Bytes) (x : Value D) (xs : Items D)
      → IsBlank w
      → opens_value s ≡ true
      → parse_value numbers n s ≡ good x (b',' ∷ rest)
      → parse_items numbers n rest ≡ good xs r
      → parse_items numbers (suc n) (w ++ s) ≡ good (cons x xs) r
  unfolding item_more skip_ws is_ws map_parsed
  parse_items-more n w s rest r x xs blank opens h k =
      item_head n w s (b',' ∷ rest) x blank opens h ∙ ap (map_parsed (cons x)) k

  colon-value :
      (n : ℕ) (s rest : Bytes) (pretty : Bool) (v : Value D)
      → opens_value s ≡ true
      → parse_value numbers n s ≡ good v rest
      → field_value (λ t. parse_value numbers n t) (skip_ws (colon pretty ++ s)) ≡ good v rest
  unfolding field_value behind_colon expect colon skip_ws is_ws
  colon-value n s rest true v opens h = rw (skip_ws-opens s opens) h
  colon-value n s rest false v opens h = rw (skip_ws-opens s opens) h

  -- A key, the colon and the value that follows.
  field_head :
      (n : ℕ) (w key s rest : Bytes) (pretty : Bool) (v : Value D)
      → IsBlank w
      → opens_value s ≡ true
      → parse_value numbers n s ≡ good v rest
      → parse_fields numbers (suc n) (w ++ (quoted key ++ (colon pretty ++ s)))
        ≡ field_more key v (λ t. parse_fields numbers n t) (skip_ws rest)
  unfolding parse_fields then_parse or_fail
  field_head n w key s rest pretty v blank opens h =
      let tail = colon pretty ++ s in
      rw
        (
          skip_ws-blank w (quoted key ++ tail) blank (quoted-opens key tail),
          parse_string-quoted key tail,
          colon-value n s rest pretty v opens h,
        )
        refl

  pub parse_fields-last :
      (n : ℕ) (w key s rest r : Bytes) (pretty : Bool) (v : Value D)
      → IsBlank w
      → opens_value s ≡ true
      → parse_value numbers n s ≡ good v rest
      → skip_ws rest ≡ b'}' ∷ r
      → parse_fields numbers (suc n) (w ++ (quoted key ++ (colon pretty ++ s)))
        ≡ good (field key v end) r
  unfolding field_more
  parse_fields-last n w key s rest r pretty v blank opens h k =
      field_head n w key s rest pretty v blank opens h
      ∙ ap (field_more key v (λ t. parse_fields numbers n t)) k

  pub parse_fields-more :
      (n : ℕ) (w key s rest r : Bytes) (pretty : Bool) (v : Value D) (fs : Fields D)
      → IsBlank w
      → opens_value s ≡ true
      → parse_value numbers n s ≡ good v (b',' ∷ rest)
      → parse_fields numbers n rest ≡ good fs r
      → parse_fields numbers (suc n) (w ++ (quoted key ++ (colon pretty ++ s)))
        ≡ good (field key v fs) r
  unfolding field_more skip_ws is_ws map_parsed
  parse_fields-more n w key s rest r pretty v fs blank opens h k =
      field_head n w key s (b',' ∷ rest) pretty v blank opens h ∙ ap (map_parsed (field key v)) k
