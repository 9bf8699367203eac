-- ===== src/Json/RoundTrip.antt =====
-- src/json.cpp: `parse` on what `dump` writes.
use shadow_se.Base.{
  ℕ, suc, ◌*◌, ◌≤◌, ◌≡◌, refl, sym, ap, ◌∙◌, Bool, true, false, [], ◌∷◌, ◌++◌, append-nil, length,
  length-append, Bytes, arith,
}
use shadow_se.Json.{
  Value, Items, Fields, null, boolean, number, text, array, object, nil, cons, end, field, Numbers,
  newline_indent, quoted, colon, dump_value, dump_items, dump_fields, dump,
}
use shadow_se.Json.Scanner.{good, skip_ws}
use shadow_se.Json.Parse.{parse_value, finish, parsed, parse}
use shadow_se.Json.Steps.{opens_value}
use shadow_se.Json.Scan.{IsReadable, reread}
use shadow_se.Json.Values.{value-RoundTrip}
use shadow_se.Json.Scalars.{
  AllReadable, ItemsReadable, FieldsReadable, read_back, items_back, fields_back, rounds,
  item_rounds, field_rounds, dump_value-opens,
}

module _ {D : Type 0} (numbers : Numbers D) where
  opens_value-length : (s : Bytes) → opens_value s ≡ true → 1 ≤ length s
  unfolding opens_value
  opens_value-length [] h = absurd (cc)
  opens_value-length (c ∷ s) h = omega arith

  mutual
    unfolding dump_value rounds AllReadable

    rounds-le :
        (pretty : Bool) (level : ℕ) (v : Value D)
        → AllReadable numbers v
        → rounds v ≤ length (dump_value numbers pretty level v) * 2
    rounds-le pretty level null h = omega arith
    rounds-le pretty level (boolean true) h = omega arith
    rounds-le pretty level (boolean false) h = omega arith
    rounds-le pretty level (number n) h =
        omega (arith, opens_value-length _ (dump_value-opens numbers pretty level (number n) h))
    rounds-le pretty level (text s) h =
        omega (arith, opens_value-length _ (dump_value-opens numbers pretty level (text s) h))
    rounds-le pretty level (array nil) h = omega arith
    rounds-le pretty level (array (cons x xs)) h =
        let first = dump_value numbers pretty (suc level) x in
        let more = dump_items numbers pretty (suc level) xs in
        let w = newline_indent pretty (suc level) in
        let w2 = newline_indent pretty level in
        omega (
          arith,
          rounds-le pretty (suc level) x h.0,
          item_rounds-le pretty (suc level) xs h.1,
          length-append w (first ++ (more ++ (w2 ++ b']' ∷ []))),
          length-append first (more ++ (w2 ++ b']' ∷ [])),
          length-append more (w2 ++ b']' ∷ []),
          length-append w2 (b']' ∷ []),
        )
    rounds-le pretty level (object end) h = omega arith
    rounds-le pretty level (object (field k v fs)) h =
        let first = dump_value numbers pretty (suc level) v in
        let more = dump_fields numbers pretty (suc level) fs in
        let w = newline_indent pretty (suc level) in
        let w2 = newline_indent pretty level in
        let behind = first ++ (more ++ (w2 ++ b'}' ∷ [])) in
        omega (
          arith,
          rounds-le pretty (suc level) v h.0,
          field_rounds-le pretty (suc level) fs h.1,
          length-append w (quoted k ++ (colon pretty ++ behind)),
          length-append (quoted k) (colon pretty ++ behind),
          length-append (colon pretty) behind,
          length-append first (more ++ (w2 ++ b'}' ∷ [])),
          length-append more (w2 ++ b'}' ∷ []),
          length-append w2 (b'}' ∷ []),
        )

    item_rounds-le :
        (pretty : Bool) (level : ℕ) (xs : Items D)
        → ItemsReadable numbers xs
        → item_rounds xs ≤ length (dump_items numbers pretty level xs) * 2
    item_rounds-le pretty level nil h = omega arith
    item_rounds-le pretty level (cons x xs) h =
        let first = dump_value numbers pretty level x in
        let more = dump_items numbers pretty level xs in
        omega (
          arith,
          rounds-le pretty level x h.0,
          item_rounds-le pretty level xs h.1,
          length-append (newline_indent pretty level) (first ++ more),
          length-append first more,
        )

    field_rounds-le :
        (pretty : Bool) (level : ℕ) (fs : Fields D)
        → FieldsReadable numbers fs
        → field_rounds fs ≤ length (dump_fields numbers pretty level fs) * 2
    field_rounds-le pretty level end h = omega arith
    field_rounds-le pretty level (field k v fs) h =
        let first = dump_value numbers pretty level v in
        let more = dump_fields numbers pretty level fs in
        omega (
          arith,
          rounds-le pretty level v h.0,
          field_rounds-le pretty level fs h.1,
          length-append (newline_indent pretty level)
              (quoted k ++ (colon pretty ++ (first ++ more))),
          length-append (quoted k) (colon pretty ++ (first ++ more)),
          length-append (colon pretty) (first ++ more),
          length-append first more,
        )

  -- What is read from the text of a value whose numbers print as JSON numbers.
  pub parse-dump_back :
      (pretty : Bool) (v : Value D)
      → AllReadable numbers v
      → parse numbers (dump numbers pretty v) ≡ parsed (read_back numbers v)
  unfolding parse dump finish skip_ws
  parse-dump_back pretty v h =
      let s = dump_value numbers pretty 0 v in
      let fuel = suc (length s * 2) in
      let whole : parse_value numbers fuel s ≡ good (read_back numbers v) [] =
        ap (parse_value numbers fuel) (sym (append-nil s))
        ∙ value-RoundTrip numbers fuel 0 pretty v [] (omega (arith, rounds-le pretty 0 v h)) h tt in
      ap (finish s) whole

  -- The printed text of the number is a number for the scanners, and `strtod` reads it back.
  abbrev pub IsExact : D → Type 0
  IsExact n = IsReadable numbers n × (reread numbers n ≡ n)

  -- Every number in the value is exact.
  unfoldable mutual
    pub AllExact : Value D → Type 0
    AllExact null = Unit
    AllExact (boolean b) = Unit
    AllExact (number n) = IsExact n
    AllExact (text s) = Unit
    AllExact (array xs) = ItemsExact xs
    AllExact (object fs) = FieldsExact fs

    pub ItemsExact : Items D → Type 0
    ItemsExact nil = Unit
    ItemsExact (cons x xs) = AllExact x × ItemsExact xs

    pub FieldsExact : Fields D → Type 0
    FieldsExact end = Unit
    FieldsExact (field k v fs) = AllExact v × FieldsExact fs

  mutual
    unfolding AllExact AllReadable read_back

    exact_value : (v : Value D) → AllExact v → AllReadable numbers v × (read_back numbers v ≡ v)
    exact_value null h = (tt, refl)
    exact_value (boolean b) h = (tt, refl)
    exact_value (number n) h = (h.0, ap number h.1)
    exact_value (text s) h = (tt, refl)
    exact_value (array xs) h = let (r, e) = exact_items xs h in (r, ap array e)
    exact_value (object fs) h = let (r, e) = exact_fields fs h in (r, ap object e)

    exact_items :
        (xs : Items D) → ItemsExact xs → ItemsReadable numbers xs × (items_back numbers xs ≡ xs)
    exact_items nil h = (tt, refl)
    exact_items (cons x xs) h =
        let (r, e) = exact_value x h.0 in let (s, f) = exact_items xs h.1 in ((r, s), cc (e, f))

    exact_fields :
        (fs : Fields D) → FieldsExact fs → FieldsReadable numbers fs × (fields_back numbers fs ≡ fs)
    exact_fields end h = (tt, refl)
    exact_fields (field k v fs) h =
        let (r, e) = exact_value v h.0 in let (s, f) = exact_fields fs h.1 in ((r, s), cc (e, f))

  -- For every value whose numbers print as JSON numbers that `strtod` reads back, the parser reads
  -- the value back from its text, compact or indented: nesting, order, keys and strings included.
  pub parse-dump :
      (pretty : Bool) (v : Value D) → AllExact v → parse numbers (dump numbers pretty v) ≡ parsed v
  parse-dump pretty v h =
      let (readable, same) = exact_value v h in
      parse-dump_back pretty v readable ∙ ap (λ (u : Value D). parsed u) same
