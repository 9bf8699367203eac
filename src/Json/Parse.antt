-- ===== src/Json/Parse.antt =====
-- src/json.cpp: `Parser` and `parse`. The scanners are those of Json/Scanner; an offset is the text from it on, so that a failure carries the
-- text left where it was found. The pointers `out` and `err` are given. The three functions that call one another run on fuel.
use shadow_se.Base.{
  ℕ, zero, suc, ◌-◌, ◌*◌, true, false, ◌||◌, Option, none, some, [], ◌∷◌, ◌++◌, ◌==◌, within,
  if◌then◌else◌, length, drop, Bytes, codes, is_empty, same_bytes, starts_with,
}
use shadow_se.Json.{
  Value, Items, Fields, null, boolean, number, text, array, object, nil, cons, end, field, Numbers,
}
use shadow_se.Json.Scanner.{
  Parsed, good, bad, spent, then_parse, map_parsed, or_fail, skip_ws, expect, take_minus,
  take_unsigned, parse_string,
}

module _ {D : Type 0} where
  unfoldable pub parse_literal : Bytes → Value D → Bytes → Parsed (Value D)
  parse_literal literal v s =
      if starts_with literal s
      then good v (drop (length literal) s)
      else bad s (codes "invalid literal")

  -- The text behind an item and the white space after it.
  unfoldable pub item_more : Value D → (Bytes → Parsed (Items D)) → Bytes → Parsed (Items D)
  item_more v more [] = bad [] (codes "expected ',' or ']'")
  item_more v more (c ∷ s) = elim (c == b']') [
    | true ↦ good (cons v nil) s
    | false ↦ elim (c == b',') [
      | true ↦ map_parsed (cons v) (more s)
      | false ↦ bad (c ∷ s) (codes "expected ',' or ']'")
    ]
  ]

  unfoldable pub field_more :
      Bytes → Value D → (Bytes → Parsed (Fields D)) → Bytes → Parsed (Fields D)
  field_more key v more [] = bad [] (codes "expected ',' or '}'")
  field_more key v more (c ∷ s) = elim (c == b'}') [
    | true ↦ good (field key v end) s
    | false ↦ elim (c == b',') [
      | true ↦ map_parsed (field key v) (more s)
      | false ↦ bad (c ∷ s) (codes "expected ',' or '}'")
    ]
  ]

  -- The text behind a key and the white space after it: the value of the field.
  unfoldable pub behind_colon : (Bytes → Parsed (Value D)) → Bytes → Option Bytes → Parsed (Value D)
  behind_colon value s none = bad s (codes "expected ':'")
  behind_colon value s (some behind) = value (skip_ws behind)

  unfoldable pub field_value : (Bytes → Parsed (Value D)) → Bytes → Parsed (Value D)
  unfolding expect behind_colon
  field_value value s = behind_colon value s (expect b':' s)

  -- `parseArray` behind the `[`, and `parseObject` behind the `{`.
  unfoldable pub array_items : (Bytes → Parsed (Items D)) → Bytes → Option Bytes → Parsed (Value D)
  array_items items s none = map_parsed array (items s)
  array_items items s (some behind) = good (array nil) behind

  unfoldable pub parse_array : (Bytes → Parsed (Items D)) → Bytes → Parsed (Value D)
  unfolding expect array_items
  parse_array items s = array_items items (skip_ws s) (expect b']' (skip_ws s))

  unfoldable pub object_fields :
      (Bytes → Parsed (Fields D)) → Bytes → Option Bytes → Parsed (Value D)
  object_fields fields s none = map_parsed object (fields s)
  object_fields fields s (some behind) = good (object end) behind

  unfoldable pub parse_object : (Bytes → Parsed (Fields D)) → Bytes → Parsed (Value D)
  unfolding expect object_fields
  parse_object fields s = object_fields fields (skip_ws s) (expect b'}' (skip_ws s))

  module _ (numbers : Numbers D) where
    -- From the sign and the text behind it: the other parts of the number and what follows.
    unfoldable pub number_result : Bytes → Bytes → Bytes × Bytes → Parsed (Value D)
    number_result minus behind (unsigned, rest) =
        let num = minus ++ unsigned in
        if is_empty behind
        then bad behind (codes "bad number")
        else if is_empty num || same_bytes num (b'-' ∷ [])
        then bad rest (codes "bad number")
        else good (number (numbers.strtod num)) rest

    unfoldable pub parse_number : Bytes → Parsed (Value D)
    unfolding take_minus take_unsigned number_result
    parse_number s =
        let (minus, behind) = take_minus s in number_result minus behind (take_unsigned behind)

    -- Numbers and literals, by their first byte.
    unfoldable pub parse_scalar : ℕ → Bytes → Parsed (Value D)
    unfolding parse_literal parse_number
    parse_scalar c s =
        if c == 34
        then map_parsed text (parse_string s)
        else if c == b't'
        then parse_literal (codes "true") (boolean true) s
        else if c == b'f'
        then parse_literal (codes "false") (boolean false) s
        else if c == b'n'
        then parse_literal (codes "null") null s
        else if c == b'-' || within b'0' b'9' c
        then parse_number s
        else bad s (codes "unexpected character '" ++ c ∷ codes "'")

    unfoldable pub value_at :
        (Bytes → Parsed (Items D)) → (Bytes → Parsed (Fields D)) → Bytes → Parsed (Value D)
    unfolding parse_array parse_object parse_scalar
    value_at items fields [] = bad [] (codes "unexpected end of input")
    value_at items fields (c ∷ s) = elim (c == b'{') [
      | true ↦ parse_object fields s
      | false ↦ elim (c == b'[') [ true ↦ parse_array items s | false ↦ parse_scalar c (c ∷ s) ]
    ]

    unfoldable mutual
      unfolding value_at item_more field_more field_value

      pub parse_value : ℕ → Bytes → Parsed (Value D)
      parse_value zero s = spent
      parse_value (suc n) s = value_at (λ t. parse_items n t) (λ t. parse_fields n t) (skip_ws s)

      pub parse_items : ℕ → Bytes → Parsed (Items D)
      parse_items zero s = spent
      parse_items (suc n) s =
          then_parse (parse_value n (skip_ws s))
            (λ v rest. item_more v (λ t. parse_items n t) (skip_ws rest))

      pub parse_fields : ℕ → Bytes → Parsed (Fields D)
      parse_fields zero s = spent
      parse_fields (suc n) s =
          then_parse (or_fail (codes "expected object key") (parse_string (skip_ws s)))
            (λ key behind.
              then_parse (field_value (λ t. parse_value n t) (skip_ws behind))
                (λ v rest. field_more key v (λ t. parse_fields n t) (skip_ws rest)))

-- What `parse` returns; the offset of a failure is a part of its message.
pub data Outcome (D : Type 0) : Type 0 where
  parsed : Value D → Outcome D
  failed : ℕ → Bytes → Outcome D
  trailing : Outcome D
  unfinished : Outcome D

module _ {D : Type 0} where
  unfoldable pub finish : Bytes → Parsed (Value D) → Outcome D
  finish input (good v rest) = if is_empty (skip_ws rest) then parsed v else trailing
  finish input (bad rest message) = failed (length input - length rest) message
  finish input spent = unfinished

  module _ (numbers : Numbers D) where
    unfoldable pub parse : Bytes → Outcome D
    unfolding finish
    parse input = finish input (parse_value numbers (suc (length input * 2)) input)
