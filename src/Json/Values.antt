-- ===== src/Json/Values.antt =====
-- src/json.cpp: `parseValue` on what `dumpValue` writes.
use shadow_se.Base.{
  ℕ, zero, suc, ◌+◌, ◌≤◌, ◌<◌, ◌≡◌, refl, ap, ◌∙◌, Bool, true, false, [], ◌∷◌, ◌++◌, append_assoc,
  Bytes, arith,
}
use shadow_se.Json.{
  Value, Items, Fields, null, boolean, number, text, array, object, nil, cons, end, field, Numbers,
  newline_indent, quoted, colon, dump_value, dump_items, dump_fields,
}
use shadow_se.Json.Scanner.{good}
use shadow_se.Json.Parse.{parse_value, parse_items, parse_fields}
use shadow_se.Json.Scan.{IsDelimited}
use shadow_se.Json.Steps.{
  IsBlank, newline_indent-IsBlank, opens_value-append, quoted-opens, parse_value-array,
  parse_value-object, parse_items-last, parse_items-more, parse_fields-last, parse_fields-more,
}
use shadow_se.Json.Scalars.{
  dump_value-opens, closing-delimits, comma-delimits, closing-blank, number-RoundTrip,
  scalar-RoundTrip, text-RoundTrip, rounds, item_rounds, field_rounds, AllReadable, ItemsReadable,
  FieldsReadable, read_back, items_back, fields_back,
}

module _ {D : Type 0} (numbers : Numbers D) where
  items_assoc : (c : ℕ) (a b d r : Bytes) → (c ∷ (a ++ (b ++ d))) ++ r ≡ c ∷ (a ++ (b ++ (d ++ r)))
  items_assoc c a b d r = simp append_assoc refl

  array_assoc :
      (c e : ℕ) (a b d f r : Bytes)
      → (c ∷ (a ++ (b ++ (d ++ (f ++ e ∷ []))))) ++ r ≡ c ∷ (a ++ (b ++ (d ++ (f ++ e ∷ r))))
  array_assoc c e a b d f r = simp append_assoc refl

  fields_assoc :
      (c : ℕ) (a k m b d r : Bytes)
      → (c ∷ (a ++ (k ++ (m ++ (b ++ d))))) ++ r ≡ c ∷ (a ++ (k ++ (m ++ (b ++ (d ++ r)))))
  fields_assoc c a k m b d r = simp append_assoc refl

  object_assoc :
      (c e : ℕ) (a k m b d f r : Bytes)
      → (c ∷ (a ++ (k ++ (m ++ (b ++ (d ++ (f ++ e ∷ []))))))) ++ r
        ≡ c ∷ (a ++ (k ++ (m ++ (b ++ (d ++ (f ++ e ∷ r))))))
  object_assoc c e a k m b d f r = simp append_assoc refl

  mutual
    unfolding dump_value rounds AllReadable read_back

    pub value-RoundTrip :
        (n level : ℕ) (pretty : Bool) (v : Value D) (r : Bytes)
        → rounds v ≤ n
        → AllReadable numbers v
        → IsDelimited r
        → parse_value numbers n (dump_value numbers pretty level v ++ r)
          ≡ good (read_back numbers v) r
    value-RoundTrip zero level pretty null r h e k = absurd (omega arith)
    value-RoundTrip zero level pretty (boolean b) r h e k = absurd (omega arith)
    value-RoundTrip zero level pretty (number d) r h e k = absurd (omega arith)
    value-RoundTrip zero level pretty (text s) r h e k = absurd (omega arith)
    value-RoundTrip zero level pretty (array xs) r h e k = absurd (omega arith)
    value-RoundTrip zero level pretty (object fs) r h e k = absurd (omega arith)
    value-RoundTrip (suc n) level pretty null r h e k =
        (scalar-RoundTrip numbers n level pretty r).0
    value-RoundTrip (suc n) level pretty (boolean true) r h e k =
        (scalar-RoundTrip numbers n level pretty r).1
    value-RoundTrip (suc n) level pretty (boolean false) r h e k =
        (scalar-RoundTrip numbers n level pretty r).2
    value-RoundTrip (suc n) level pretty (number d) r h e k = number-RoundTrip numbers n d r e k
    value-RoundTrip (suc n) level pretty (text s) r h e k = text-RoundTrip numbers n s r
    value-RoundTrip (suc n) level pretty (array nil) r h e k =
        (scalar-RoundTrip numbers n level pretty r).3
    value-RoundTrip (suc n) level pretty (array (cons x xs)) r h e k =
        let w = newline_indent pretty (suc level) in
        let w2 = newline_indent pretty level in
        let first = dump_value numbers pretty (suc level) x in
        let more = dump_items numbers pretty (suc level) xs in
        let tail = first ++ (more ++ (w2 ++ b']' ∷ r)) in
        ap (parse_value numbers (suc n)) (array_assoc b'[' b']' w first more w2 r)
        ∙ parse_value-array numbers n w tail r (items_back numbers (cons x xs))
            (newline_indent-IsBlank pretty (suc level))
            (opens_value-append first _ (dump_value-opens numbers pretty (suc level) x e.0))
            (items-RoundTrip n (suc level) level pretty [] x xs r (λ s. refl) (omega arith) e.0 e.1)
    value-RoundTrip (suc n) level pretty (object end) r h e k =
        (scalar-RoundTrip numbers n level pretty r).4
    value-RoundTrip (suc n) level pretty (object (field key v fs)) r h e k =
        let w = newline_indent pretty (suc level) in
        let w2 = newline_indent pretty level in
        let first = dump_value numbers pretty (suc level) v in
        let more = dump_fields numbers pretty (suc level) fs in
        let tail = quoted key ++ (colon pretty ++ (first ++ (more ++ (w2 ++ b'}' ∷ r)))) in
        ap (parse_value numbers (suc n))
          (object_assoc b'{' b'}' w (quoted key) (colon pretty) first more w2 r)
        ∙ parse_value-object numbers n w tail r (fields_back numbers (field key v fs))
            (newline_indent-IsBlank pretty (suc level)) (quoted-opens key _)
            (fields-RoundTrip n (suc level) level pretty [] key v fs r (λ s. refl) (omega arith) e.0
              e.1)

    items-RoundTrip :
        (n level outer : ℕ) (pretty : Bool) (w : Bytes) (x : Value D) (xs : Items D) (r : Bytes)
        → IsBlank w
        → rounds x + item_rounds xs < n
        → AllReadable numbers x
        → ItemsReadable numbers xs
        → parse_items numbers n (
            w
            ++ (dump_value numbers pretty level x
                ++ (dump_items numbers pretty level xs
                    ++ (newline_indent pretty outer ++ b']' ∷ r))))
          ≡ good (items_back numbers (cons x xs)) r
    items-RoundTrip zero level outer pretty w x xs r blank h e f = absurd (omega arith)
    items-RoundTrip (suc n) level outer pretty w x nil r blank h e f =
        let first = dump_value numbers pretty level x in
        let rest = newline_indent pretty outer ++ b']' ∷ r in
        parse_items-last numbers n w (first ++ rest) rest r (read_back numbers x) blank
          (opens_value-append first rest (dump_value-opens numbers pretty level x e))
          (value-RoundTrip n level pretty x rest (omega arith) e
            (closing-delimits numbers pretty outer r).0)
          (closing-blank numbers pretty outer r).0
    items-RoundTrip (suc n) level outer pretty w x (cons y ys) r blank h e f =
        let first = dump_value numbers pretty level x in
        let w2 = newline_indent pretty level in
        let second = dump_value numbers pretty level y in
        let more = dump_items numbers pretty level ys in
        let rest = w2 ++ (second ++ (more ++ (newline_indent pretty outer ++ b']' ∷ r))) in
        ap (λ t. parse_items numbers (suc n) (w ++ (first ++ t)))
          (items_assoc b',' w2 second more (newline_indent pretty outer ++ b']' ∷ r))
        ∙ parse_items-more numbers n w (first ++ b',' ∷ rest) rest r (read_back numbers x)
            (items_back numbers (cons y ys)) blank
            (opens_value-append first _ (dump_value-opens numbers pretty level x e))
            (value-RoundTrip n level pretty x (b',' ∷ rest) (omega arith) e
              (comma-delimits numbers rest))
            (items-RoundTrip n level outer pretty w2 y ys r (newline_indent-IsBlank pretty level)
              (omega arith) f.0 f.1)

    fields-RoundTrip :
        (n level outer : ℕ) (pretty : Bool) (w key : Bytes) (v : Value D) (fs : Fields D)
        (r : Bytes)
        → IsBlank w
        → rounds v + field_rounds fs < n
        → AllReadable numbers v
        → FieldsReadable numbers fs
        → parse_fields numbers n (
            w
            ++ (quoted key
                ++ (colon pretty
                    ++ (dump_value numbers pretty level v
                        ++ (dump_fields numbers pretty level fs
                            ++ (newline_indent pretty outer ++ b'}' ∷ r))))))
          ≡ good (fields_back numbers (field key v fs)) r
    fields-RoundTrip zero level outer pretty w key v fs r blank h e f = absurd (omega arith)
    fields-RoundTrip (suc n) level outer pretty w key v end r blank h e f =
        let first = dump_value numbers pretty level v in
        let rest = newline_indent pretty outer ++ b'}' ∷ r in
        parse_fields-last numbers n w key (first ++ rest) rest r pretty (read_back numbers v) blank
          (opens_value-append first rest (dump_value-opens numbers pretty level v e))
          (value-RoundTrip n level pretty v rest (omega arith) e
            (closing-delimits numbers pretty outer r).1)
          (closing-blank numbers pretty outer r).1
    fields-RoundTrip (suc n) level outer pretty w key v (field j u fs) r blank h e f =
        let first = dump_value numbers pretty level v in
        let w2 = newline_indent pretty level in
        let second = dump_value numbers pretty level u in
        let more = dump_fields numbers pretty level fs in
        let rest =
          w2
          ++ (quoted j
              ++ (colon pretty
                  ++ (second ++ (more ++ (newline_indent pretty outer ++ b'}' ∷ r))))) in
        ap (λ t. parse_fields numbers (suc n) (w ++ (quoted key ++ (colon pretty ++ (first ++ t)))))
          (fields_assoc b',' w2 (quoted j) (colon pretty) second more
            (newline_indent pretty outer ++ b'}' ∷ r))
        ∙ parse_fields-more numbers n w key (first ++ b',' ∷ rest) rest r pretty
            (read_back numbers v) (fields_back numbers (field j u fs)) blank
            (opens_value-append first _ (dump_value-opens numbers pretty level v e))
            (value-RoundTrip n level pretty v (b',' ∷ rest) (omega arith) e
              (comma-delimits numbers rest))
            (fields-RoundTrip n level outer pretty w2 j u fs r (newline_indent-IsBlank pretty level)
              (omega arith) f.0 f.1)
