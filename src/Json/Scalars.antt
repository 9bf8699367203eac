-- ===== src/Json/Scalars.antt =====
-- src/json.cpp: literals, strings and numbers as the parser reads them back, and what a value asks of its
-- numbers and of the fuel.
use shadow_se.Base.{
  ℕ, suc, ◌+◌, ◌≡◌, refl, ap, ◌∙◌, Bool, true, false, [], ◌∷◌, ◌++◌, ◌==◌, Bytes, codes,
  starts_with, arith,
}
use shadow_se.Json.{
  Value, Items, Fields, null, boolean, number, text, array, object, nil, cons, end, field, Numbers,
  newline_indent, quoted, number_text, dump_value,
}
use shadow_se.Json.Scanner.{good, is_ws, skip_ws, map_parsed, expect}
use shadow_se.Json.Parse.{
  parse_literal, parse_array, parse_object, parse_scalar, value_at, parse_value, array_items,
  object_fields, parse_number,
}
use shadow_se.Json.Scan.{
  IsReadable, IsDelimited, reread, goes_on, opens_number, parse_number-reread,
}
use shadow_se.Json.Strings.{parse_string-quoted}
use shadow_se.Json.Steps.{newline_indent-IsBlank, opens_value}

module _ {D : Type 0} where
  -- The fuel that a value needs.
  unfoldable mutual
    pub rounds : Value D → ℕ
    rounds null = 1
    rounds (boolean b) = 1
    rounds (number n) = 1
    rounds (text s) = 1
    rounds (array xs) = suc (item_rounds xs)
    rounds (object fs) = suc (field_rounds fs)

    pub item_rounds : Items D → ℕ
    item_rounds nil = 0
    item_rounds (cons x xs) = suc (rounds x + item_rounds xs)

    pub field_rounds : Fields D → ℕ
    field_rounds end = 0
    field_rounds (field k v fs) = suc (rounds v + field_rounds fs)

module _ {D : Type 0} (numbers : Numbers D) where
  -- Every number in the value prints as a number.
  unfoldable mutual
    pub AllReadable : Value D → Type 0
    AllReadable null = Unit
    AllReadable (boolean b) = Unit
    AllReadable (number n) = IsReadable numbers n
    AllReadable (text s) = Unit
    AllReadable (array xs) = ItemsReadable xs
    AllReadable (object fs) = FieldsReadable fs

    pub ItemsReadable : Items D → Type 0
    ItemsReadable nil = Unit
    ItemsReadable (cons x xs) = AllReadable x × ItemsReadable xs

    pub FieldsReadable : Fields D → Type 0
    FieldsReadable end = Unit
    FieldsReadable (field k v fs) = AllReadable v × FieldsReadable fs

  -- If every number prints as one, so do those of each value.
  module _ (all_numbers : (n : D) → IsReadable numbers n) where
    mutual
      unfolding AllReadable

      pub every-AllReadable : (v : Value D) → AllReadable v
      every-AllReadable null = tt
      every-AllReadable (boolean b) = tt
      every-AllReadable (number n) = all_numbers n
      every-AllReadable (text s) = tt
      every-AllReadable (array xs) = every_item xs
      every-AllReadable (object fs) = every_field fs

      every_item : (xs : Items D) → ItemsReadable xs
      every_item nil = tt
      every_item (cons x xs) = (every-AllReadable x, every_item xs)

      every_field : (fs : Fields D) → FieldsReadable fs
      every_field end = tt
      every_field (field k v fs) = (every-AllReadable v, every_field fs)

  -- The value with each number as it is read from its text.
  unfoldable mutual
    unfolding reread

    pub read_back : Value D → Value D
    read_back null = null
    read_back (boolean b) = boolean b
    read_back (number n) = number (reread numbers n)
    read_back (text s) = text s
    read_back (array xs) = array (items_back xs)
    read_back (object fs) = object (fields_back fs)

    pub items_back : Items D → Items D
    items_back nil = nil
    items_back (cons x xs) = cons (read_back x) (items_back xs)

    pub fields_back : Fields D → Fields D
    fields_back end = end
    fields_back (field k v fs) = field k (read_back v) (fields_back fs)

  pub opens_number-opens : (s : Bytes) → opens_number s ≡ true → opens_value s ≡ true
  unfolding opens_number opens_value is_ws
  opens_number-opens [] h = absurd (cc)
  opens_number-opens (c ∷ s) h = ground arith

  pub dump_value-opens :
      (pretty : Bool) (level : ℕ) (v : Value D)
      → AllReadable v
      → opens_value (dump_value numbers pretty level v) ≡ true
  unfolding dump_value opens_value is_ws AllReadable quoted
  dump_value-opens pretty level null h = refl
  dump_value-opens pretty level (boolean true) h = refl
  dump_value-opens pretty level (boolean false) h = refl
  dump_value-opens pretty level (number n) h = opens_number-opens (number_text numbers n) h.0
  dump_value-opens pretty level (text s) h = refl
  dump_value-opens pretty level (array nil) h = refl
  dump_value-opens pretty level (array (cons x xs)) h = refl
  dump_value-opens pretty level (object end) h = refl
  dump_value-opens pretty level (object (field k v fs)) h = refl

  -- What stands behind a value does not go on as a number.
  pub newline-delimits :
      (pretty : Bool) (level c : ℕ) (r : Bytes)
      → goes_on c ≡ false
      → IsDelimited (newline_indent pretty level ++ c ∷ r)
  unfolding newline_indent goes_on
  newline-delimits true level c r h = refl
  newline-delimits false level c r h = h

  pub closing-delimits :
      (pretty : Bool) (level : ℕ) (r : Bytes)
      → IsDelimited (newline_indent pretty level ++ b']' ∷ r)
        × IsDelimited (newline_indent pretty level ++ b'}' ∷ r)
  unfolding goes_on
  closing-delimits pretty level r =
      (newline-delimits pretty level b']' r refl, newline-delimits pretty level b'}' r refl)

  pub comma-delimits : (r : Bytes) → IsDelimited (b',' ∷ r)
  unfolding goes_on
  comma-delimits r = refl

  pub closing-blank :
      (pretty : Bool) (level : ℕ) (r : Bytes)
      → (skip_ws (newline_indent pretty level ++ b']' ∷ r) ≡ b']' ∷ r)
        × (skip_ws (newline_indent pretty level ++ b'}' ∷ r) ≡ b'}' ∷ r)
  unfolding skip_ws is_ws
  closing-blank pretty level r = (
    newline_indent-IsBlank pretty level (b']' ∷ r),
    newline_indent-IsBlank pretty level (b'}' ∷ r),
  )

  -- A string, a literal and a number.

  pub parse_value-number :
      (n : ℕ) (s : Bytes)
      → opens_number s ≡ true
      → parse_value numbers (suc n) s ≡ parse_number numbers s
  unfolding parse_value value_at parse_scalar skip_ws is_ws opens_number
  parse_value-number n [] h = absurd (cc)
  parse_value-number n (c ∷ s) h =
      let blank : is_ws c ≡ false = ground arith in
      let brace : c == b'{' ≡ false = ground arith in
      let bracket : c == b'[' ≡ false = ground arith in
      let quote : c == 34 ≡ false = ground arith in
      let t : c == b't' ≡ false = ground arith in
      let f : c == b'f' ≡ false = ground arith in
      let other : c == b'n' ≡ false = ground arith in
      rw (blank, value_at, brace, bracket, quote, t, f, other, h) refl

  pub opens_number-append : (s r : Bytes) → opens_number s ≡ true → opens_number (s ++ r) ≡ true
  unfolding opens_number
  opens_number-append [] r h = absurd (cc)
  opens_number-append (c ∷ s) r h = h

  pub number-RoundTrip :
      (n : ℕ) (d : D) (r : Bytes)
      → IsReadable numbers d
      → IsDelimited r
      → parse_value numbers (suc n) (number_text numbers d ++ r)
        ≡ good (number (reread numbers d)) r
  number-RoundTrip n d r h k =
      let printed = number_text numbers d in
      parse_value-number n (printed ++ r) (opens_number-append printed r h.0)
      ∙ parse_number-reread numbers d r h k

  pub scalar-RoundTrip :
      (n level : ℕ) (pretty : Bool) (r : Bytes)
      → (parse_value numbers (suc n) (codes "null" ++ r) ≡ good null r)
        × (parse_value numbers (suc n) (codes "true" ++ r) ≡ good (boolean true) r)
        × (parse_value numbers (suc n) (codes "false" ++ r) ≡ good (boolean false) r)
        × (parse_value numbers (suc n) (codes "[]" ++ r) ≡ good (array nil) r)
        × (parse_value numbers (suc n) (codes "{}" ++ r) ≡ good (object end) r)
  unfolding parse_value value_at parse_scalar skip_ws is_ws parse_literal starts_with parse_array
      parse_object array_items object_fields expect
  scalar-RoundTrip n level pretty r = (refl, refl, refl, refl, refl)

  pub text-RoundTrip :
      (n : ℕ) (s r : Bytes) → parse_value numbers (suc n) (quoted s ++ r) ≡ good (text s) r
  unfolding parse_value value_at parse_scalar skip_ws is_ws quoted map_parsed
  text-RoundTrip n s r = ap (map_parsed text) (parse_string-quoted s r)
