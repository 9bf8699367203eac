-- ===== src/Json.antt =====
-- src/json.cpp: the JSON value, its members and `dump`. A `double` is an abstract type with the
-- conversions that the code calls. `operator[]` hands out a reference: `subscript` is the value that
-- it leaves behind, and `assign` that value once the reference was assigned to.
pub mod Scanner
pub mod Parse
pub mod Lookup
pub mod Strings
pub mod Scan
pub mod Steps
pub mod Scalars
pub mod Values
pub mod RoundTrip
pub mod Leaves
pub mod Fuel
use shadow_se.Base.{
  ℕ, zero, suc, ◌+◌, ◌-◌, ◌*◌, ◌/◌, ◌%◌, Bool, true, false, Option, none, some, List, [], ◌∷◌, ◌++◌,
  ltb, ◌==◌, if◌then◌else◌, Bytes, codes, same_bytes,
}

mutual
  pub data Value (D : Type 0) : Type 0 where
    null : Value D
    boolean : Bool → Value D
    number : D → Value D
    text : Bytes → Value D
    array : Items D → Value D
    object : Fields D → Value D

  pub data Items (D : Type 0) : Type 0 where
    nil : Items D
    cons : Value D → Items D → Items D

  pub data Fields (D : Type 0) : Type 0 where
    end : Fields D
    field : Bytes → Value D → Fields D → Fields D

-- What the code asks of a `double`: the test of `dumpValue`, `std::to_string` of its integer part,
-- what a stream prints, and `strtod`.
pub record Numbers (D : Type 0) : Type 0 where
  pub is_integer : D → Bool
  pub integer_text : D → Bytes
  pub stream_text : D → Bytes
  pub strtod : Bytes → D

module _ {D : Type 0} where
  unfoldable pub as_bool : Bool → Value D → Bool
  as_bool default (boolean b) = b
  as_bool default v = default

  unfoldable pub as_number : D → Value D → D
  as_number default (number n) = n
  as_number default v = default

  unfoldable pub as_string : Bytes → Value D → Bytes
  as_string default (text s) = s
  as_string default v = default

  unfoldable pub array_of : Value D → Items D
  array_of (array xs) = xs
  array_of v = nil

  unfoldable pub object_of : Value D → Fields D
  object_of (object fs) = fs
  object_of v = end

  unfoldable pub push_back : Value D → Items D → Items D
  push_back v nil = cons v nil
  push_back v (cons x xs) = cons x (push_back v xs)

  unfoldable pub push : Value D → Value D → Value D
  unfolding array_of push_back
  push v w = array (push_back v (array_of w))

  unfoldable pub find_field : Bytes → Fields D → Option (Value D)
  find_field key end = none
  find_field key (field k v fs) = if same_bytes k key then some v else find_field key fs

  unfoldable pub find : Bytes → Value D → Option (Value D)
  unfolding find_field
  find key (object fs) = find_field key fs
  find key v = none

  unfoldable pub ensure_field : Bytes → Fields D → Fields D
  ensure_field key end = field key null end
  ensure_field key (field k v fs) = field k v (if same_bytes k key then fs else ensure_field key fs)

  unfoldable pub subscript : Bytes → Value D → Value D
  unfolding object_of ensure_field
  subscript key v = object (ensure_field key (object_of v))

  unfoldable pub assign_field : Bytes → Value D → Fields D → Fields D
  assign_field key w end = end
  assign_field key w (field k v fs) =
      let rest = assign_field key w fs in if same_bytes k key then field k w fs else field k v rest

  unfoldable pub assign : Bytes → Value D → Value D → Value D
  unfolding subscript assign_field object_of
  assign key w v = object (assign_field key w (object_of (subscript key v)))

unfoldable pub hex_char : ℕ → ℕ
hex_char d = if ltb d 10 then 48 + d else 87 + d

-- One byte of `escapeString`.
unfoldable pub escape_byte : ℕ → Bytes
unfolding hex_char
escape_byte c =
    if c == 34
    then 92 ∷ 34 ∷ []
    else if c == 92
    then 92 ∷ 92 ∷ []
    else if c == 8
    then codes "\\b"
    else if c == 12
    then codes "\\f"
    else if c == 10
    then codes "\\n"
    else if c == 13
    then codes "\\r"
    else if c == 9
    then codes "\\t"
    else if ltb c 0x20
    then codes "\\u00" ++ hex_char (c / 16) ∷ hex_char (c % 16) ∷ []
    else c ∷ []

unfoldable pub escape_string : Bytes → Bytes
unfolding escape_byte
escape_string [] = []
escape_string (c ∷ s) = escape_byte c ++ escape_string s

unfoldable pub spaces : ℕ → Bytes
spaces zero = []
spaces (suc n) = b' ' ∷ spaces n

-- `if (pretty) newlineIndent(level)`
unfoldable pub newline_indent : Bool → ℕ → Bytes
unfolding spaces
newline_indent pretty level = if pretty then 10 ∷ spaces (level * 2) else []

unfoldable pub quoted : Bytes → Bytes
unfolding escape_string
quoted s = 34 ∷ (escape_string s ++ 34 ∷ [])

-- What stands between a key and its value.
unfoldable pub colon : Bool → Bytes
colon pretty = if pretty then b':' ∷ b' ' ∷ [] else b':' ∷ []

module _ {D : Type 0} (numbers : Numbers D) where
  unfoldable pub number_text : D → Bytes
  number_text n = if numbers.is_integer n then numbers.integer_text n else numbers.stream_text n

  unfoldable mutual
    unfolding number_text newline_indent quoted colon

    pub dump_value : Bool → ℕ → Value D → Bytes
    dump_value pretty indent null = codes "null"
    dump_value pretty indent (boolean true) = codes "true"
    dump_value pretty indent (boolean false) = codes "false"
    dump_value pretty indent (number n) = number_text n
    dump_value pretty indent (text s) = quoted s
    dump_value pretty indent (array nil) = codes "[]"
    dump_value pretty indent (array (cons x xs)) =
        b'['
        ∷ (newline_indent pretty (suc indent)
            ++ (dump_value pretty (suc indent) x
                ++ (dump_items pretty (suc indent) xs
                    ++ (newline_indent pretty indent ++ b']' ∷ []))))
    dump_value pretty indent (object end) = codes "{}"
    dump_value pretty indent (object (field k v fs)) =
        b'{'
        ∷ (newline_indent pretty (suc indent)
            ++ (quoted k
                ++ (colon pretty
                    ++ (dump_value pretty (suc indent) v
                        ++ (dump_fields pretty (suc indent) fs
                            ++ (newline_indent pretty indent ++ b'}' ∷ []))))))

    -- The rounds after the first.
    pub dump_items : Bool → ℕ → Items D → Bytes
    dump_items pretty level nil = []
    dump_items pretty level (cons x xs) =
        b','
        ∷ (newline_indent pretty level ++ (dump_value pretty level x ++ dump_items pretty level xs))

    pub dump_fields : Bool → ℕ → Fields D → Bytes
    dump_fields pretty level end = []
    dump_fields pretty level (field k v fs) =
        b','
        ∷ (newline_indent pretty level
            ++ (quoted k
                ++ (colon pretty ++ (dump_value pretty level v ++ dump_fields pretty level fs))))

  unfoldable pub dump : Bool → Value D → Bytes
  dump pretty v = dump_value pretty 0 v
