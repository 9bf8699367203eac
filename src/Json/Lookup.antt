-- ===== src/Json/Lookup.antt =====
-- src/json.cpp: `operator[]` and `find`.
use shadow_se.Base.{
  ◌≡◌, refl, inl, inr, Bool-cases, Option, none, some, if◌then◌else◌, Bytes, same_bytes,
  same_bytes_iff, arith,
}
use shadow_se.Json.{
  Value, Fields, Numbers, null, boolean, number, text, array, object, end, field, find_field, find,
  ensure_field, subscript, assign_field, assign, object_of,
}
use shadow_se.Json.Scalars.{read_back, fields_back}

module _ {D : Type 0} where
  find_field-assign :
      (key j : Bytes) (w : Value D) (fs : Fields D)
      → find_field j (assign_field key w (ensure_field key fs))
        ≡ (if same_bytes key j then some w else find_field j fs)
  unfolding find_field assign_field ensure_field
  find_field-assign key j w end = ground (arith, same_bytes_iff key key)
  find_field-assign key j w (field k v fs) = ground (
    arith,
    find_field-assign key j w fs,
    same_bytes_iff k key,
    same_bytes_iff k j,
    same_bytes_iff key j,
  )

  find-object : (j : Bytes) (v : Value D) → find j v ≡ find_field j (object_of v)
  unfolding find object_of find_field
  find-object j (object fs) = refl
  find-object j null = refl
  find-object j (boolean b) = refl
  find-object j (number n) = refl
  find-object j (text s) = refl
  find-object j (array xs) = refl

  -- After `v[key] = w`, `find` gives `w` for the key, and for every other key what it gave before
  -- if `v` was an object; on any other value `v` becomes an object with that one field.
  pub find-assign :
      (key j : Bytes) (w v : Value D)
      → find j (assign key w v) ≡ (if same_bytes key j then some w else find j v)
  unfolding find assign subscript object_of
  find-assign key j w v = rw (find-object j v) (find_field-assign key j w (object_of v))

module _ {D : Type 0} (numbers : Numbers D) where
  abbrev pub found_back : Option (Value D) → Option (Value D)
  found_back none = none
  found_back (some v) = some (read_back numbers v)

  find_field-fields_back :
      (j : Bytes) (fs : Fields D)
      → find_field j (fields_back numbers fs) ≡ found_back (find_field j fs)
  unfolding find_field read_back
  find_field-fields_back j end = refl
  find_field-fields_back j (field k v fs) = elim (Bool-cases (same_bytes k j)) [
    | inl e ↦ rw e refl
    | inr e ↦ rw e (find_field-fields_back j fs)
  ]

  -- Reading a value back changes no key.
  pub find-read_back :
      (j : Bytes) (v : Value D) → find j (read_back numbers v) ≡ found_back (find j v)
  unfolding find read_back
  find-read_back j (object fs) = find_field-fields_back j fs
  find-read_back j null = refl
  find-read_back j (boolean b) = refl
  find-read_back j (number n) = refl
  find-read_back j (text s) = refl
  find-read_back j (array xs) = refl
