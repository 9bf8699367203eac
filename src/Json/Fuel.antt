-- ===== src/Json/Fuel.antt =====
-- src/json.cpp: the parser's recursion ends within the fuel, since each round takes a byte.
use shadow_se.Base.{
  ℕ, zero, suc, ◌-◌, ◌*◌, ◌≤◌, ◌<◌, ◌≡◌, ◌≢◌, refl, inl, inr, Bool-cases, Option, none, some, [],
  ◌∷◌, ◌==◌, length, Bytes, arith,
}
use shadow_se.Json.{Value, Items, Fields, array, object, cons, field, Numbers}
use shadow_se.Json.Scanner.{Parsed, good, bad, spent, or_fail, skip_ws, expect, parse_string}
use shadow_se.Json.Parse.{
  item_more, field_more, behind_colon, field_value, array_items, object_fields, parse_array,
  parse_object, value_at, parse_value, parse_items, parse_fields, unfinished, finish, parse,
}
use shadow_se.Json.Leaves.{
  Leaves, then_parse-Leaves, map_parsed-Leaves, or_fail-Leaves, Leaves-le, skip_ws-length,
  expect-length, parse_string-Leaves, parse_scalar-Leaves,
}

-- Arrays and objects, for parsers of their items that leave no more than they are given.

module _ {D : Type 0} where
  item_more-Leaves :
      (v : Value D) (more : Bytes → Parsed (Items D)) (s : Bytes)
      → ((t : Bytes) → length t < length s → Leaves (length t) (more t))
      → Leaves (length s) (item_more v more s)
  unfolding item_more
  item_more-Leaves v more [] h = tt
  item_more-Leaves v more (c ∷ s) h = elim (Bool-cases (c == b']')) [
    | inl e ↦ rw (item_more, e) (omega arith)
    | inr e ↦ elim (Bool-cases (c == b',')) [
      | inl f ↦
          rw (item_more, e, f)
            (map_parsed-Leaves (suc (length s)) (cons v) (more s)
              (Leaves-le (length s) (suc (length s)) _ (omega arith) (h s (omega arith))))
      | inr f ↦ rw (item_more, e, f) tt
    ]
  ]

  field_more-Leaves :
      (key : Bytes) (v : Value D) (more : Bytes → Parsed (Fields D)) (s : Bytes)
      → ((t : Bytes) → length t < length s → Leaves (length t) (more t))
      → Leaves (length s) (field_more key v more s)
  unfolding field_more
  field_more-Leaves key v more [] h = tt
  field_more-Leaves key v more (c ∷ s) h = elim (Bool-cases (c == b'}')) [
    | inl e ↦ rw (field_more, e) (omega arith)
    | inr e ↦ elim (Bool-cases (c == b',')) [
      | inl f ↦
          rw (field_more, e, f)
            (map_parsed-Leaves (suc (length s)) (field key v) (more s)
              (Leaves-le (length s) (suc (length s)) _ (omega arith) (h s (omega arith))))
      | inr f ↦ rw (field_more, e, f) tt
    ]
  ]

  array_items-Leaves :
      (items : Bytes → Parsed (Items D)) (k : ℕ) (s : Bytes) (behind : Option Bytes)
      → length s ≤ k
      → ((t : Bytes) → behind ≡ some t → suc (length t) ≡ length s)
      → Leaves (length s) (items s)
      → Leaves k (array_items items s behind)
  unfolding array_items
  array_items-Leaves items k s none le h g =
      map_parsed-Leaves k array (items s) (Leaves-le (length s) k _ le g)
  array_items-Leaves items k s (some t) le h g = omega (arith, h t refl)

  object_fields-Leaves :
      (fields : Bytes → Parsed (Fields D)) (k : ℕ) (s : Bytes) (behind : Option Bytes)
      → length s ≤ k
      → ((t : Bytes) → behind ≡ some t → suc (length t) ≡ length s)
      → Leaves (length s) (fields s)
      → Leaves k (object_fields fields s behind)
  unfolding object_fields
  object_fields-Leaves fields k s none le h g =
      map_parsed-Leaves k object (fields s) (Leaves-le (length s) k _ le g)
  object_fields-Leaves fields k s (some t) le h g = omega (arith, h t refl)

  behind_colon-Leaves :
      (value : Bytes → Parsed (Value D)) (s : Bytes) (behind : Option Bytes)
      → ((t : Bytes) → behind ≡ some t → suc (length t) ≡ length s)
      → ((t : Bytes) → length t ≤ length s → Leaves (length t) (value t))
      → Leaves (length s) (behind_colon value s behind)
  unfolding behind_colon
  behind_colon-Leaves value s none h g = tt
  behind_colon-Leaves value s (some t) h g =
      let le : length (skip_ws t) ≤ length s = omega (arith, h t refl, skip_ws-length t) in
      Leaves-le (length (skip_ws t)) (length s) _ le (g (skip_ws t) le)

  module _ (numbers : Numbers D) where
    value_at-Leaves :
        (items : Bytes → Parsed (Items D)) (fields : Bytes → Parsed (Fields D)) (s : Bytes)
        → ((t : Bytes) → length t < length s → Leaves (length t) (items t))
        → ((t : Bytes) → length t < length s → Leaves (length t) (fields t))
        → Leaves (length s - 1) (value_at numbers items fields s)
    unfolding value_at parse_array parse_object
    value_at-Leaves items fields [] h g = tt
    value_at-Leaves items fields (c ∷ s) h g =
        let t = skip_ws s in
        let k = suc (length s) - 1 in
        let le : length t ≤ k = omega (arith, skip_ws-length s) in
        elim (Bool-cases (c == b'{')) [
          | inl e ↦
              rw (value_at, e)
                (object_fields-Leaves fields k t (expect b'}' t) le (expect-length b'}' t)
                  (g t (omega arith)))
          | inr e ↦ elim (Bool-cases (c == b'[')) [
            | inl f ↦
                rw (value_at, e, f)
                  (array_items-Leaves items k t (expect b']' t) le (expect-length b']' t)
                    (h t (omega arith)))
            | inr f ↦ rw (value_at, e, f) (parse_scalar-Leaves numbers c (c ∷ s))
          ]
        ]

    mutual
      unfolding parse_value field_value

      parse_value-Leaves :
          (n : ℕ) (s : Bytes) → length s * 2 < n → Leaves (length s - 1) (parse_value numbers n s)
      parse_value-Leaves zero s h = absurd (omega arith)
      parse_value-Leaves (suc n) s h =
          let le = skip_ws-length s in
          Leaves-le (length (skip_ws s) - 1) (length s - 1) _ (omega arith) (
            value_at-Leaves _ _ (skip_ws s) (λ t lt. parse_items-Leaves n t (omega arith))
              (λ t lt. parse_fields-Leaves n t (omega arith)))

      parse_items-Leaves :
          (n : ℕ) (s : Bytes) → suc (length s * 2) < n → Leaves (length s) (parse_items numbers n s)
      parse_items-Leaves zero s h = absurd (omega arith)
      parse_items-Leaves (suc n) s h =
          let t = skip_ws s in
          let le = skip_ws-length s in
          then_parse-Leaves (length t - 1) (length s) (parse_value numbers n t) _
            (parse_value-Leaves n t (omega arith))
            (λ v rest less.
              let le2 = skip_ws-length rest in
              Leaves-le (length (skip_ws rest)) (length s) _ (omega arith) (
                item_more-Leaves v _ (skip_ws rest) (λ u lt. parse_items-Leaves n u (omega arith))))

      parse_fields-Leaves :
          (n : ℕ) (s : Bytes)
          → suc (length s * 2) < n
          → Leaves (length s) (parse_fields numbers n s)
      parse_fields-Leaves zero s h = absurd (omega arith)
      parse_fields-Leaves (suc n) s h =
          let t = skip_ws s in
          let le = skip_ws-length s in
          then_parse-Leaves (length t - 1) (length s) (or_fail _ (parse_string t)) _
            (or_fail-Leaves (length t - 1) _ (parse_string t) (parse_string-Leaves t))
            (λ key behind short.
              let u = skip_ws behind in
              let le2 = skip_ws-length behind in
              then_parse-Leaves (length u) (length s) (field_value (λ w. parse_value numbers n w) u)
                _
                (behind_colon-Leaves _ u (expect b':' u) (expect-length b':' u) (λ w lt.
                  Leaves-le (length w - 1) (length w) _ (omega arith)
                    (parse_value-Leaves n w (omega arith))))
                (λ v rest less.
                  let le3 = skip_ws-length rest in
                  Leaves-le (length (skip_ws rest)) (length s) _ (omega arith) (
                    field_more-Leaves key v _ (skip_ws rest)
                      (λ w lt. parse_fields-Leaves n w (omega arith)))))

finish-unfinished :
    {D : Type 0} (input : Bytes) (k : ℕ) (p : Parsed (Value D))
    → Leaves k p
    → finish input p ≢ unfinished
unfolding finish
finish-unfinished input k (good v rest) h = ground arith
finish-unfinished input k (bad rest message) h = λ e. cc
finish-unfinished input k spent h = absurd h

-- The parser ends on every text: with the fuel that `parse` gives, twice the length and one more,
-- it returns a value or an error, never an unfinished run.
pub parse-unfinished :
    {D : Type 0} (numbers : Numbers D) (input : Bytes) → parse numbers input ≢ unfinished
unfolding parse
parse-unfinished numbers input =
    finish-unfinished input (length input - 1) (parse_value numbers (suc (length input * 2)) input)
      (parse_value-Leaves numbers (suc (length input * 2)) input (omega arith))
