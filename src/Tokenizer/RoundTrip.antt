-- ===== src/Tokenizer/RoundTrip.antt =====
-- Decoding what `append_codepoint` wrote.
use shadow_se.Base.{
  ℕ, zero, suc, ◌+◌, ◌*◌, ◌%◌, ◌≤◌, ◌<◌, false, Option, none, some, [], ◌∷◌, ◌++◌, ltb, within,
  length, Bytes, ◌≡◌, refl, arith, Bool-cases, inl, inr,
}
use shadow_se.Tokenizer.{lead, continuation, accept, sequence, decode_utf8, encode}

-- A Unicode scalar value.
pub record IsScalar (cp : ℕ) : Type 0 where
  pub below : cp < 0x110000
  pub no_surrogate : within 0xD800 0xDFFF cp ≡ false

decode_two :
    (cp : ℕ) (rest : Bytes) → 0x80 ≤ cp → cp < 0x800 → decode_utf8 (encode cp ++ rest) ≡ (cp, rest)
unfolding decode_utf8 encode
decode_two cp rest h k = ground arith

decode_three :
    (cp : ℕ) (rest : Bytes)
    → 0x800 ≤ cp
    → cp < 0x10000
    → IsScalar cp
    → decode_utf8 (encode cp ++ rest) ≡ (cp, rest)
unfolding decode_utf8 encode
decode_three cp rest h k v = ground arith

decode_four :
    (cp : ℕ) (rest : Bytes)
    → 0x10000 ≤ cp
    → IsScalar cp
    → decode_utf8 (encode cp ++ rest) ≡ (cp, rest)
unfolding decode_utf8 encode
decode_four cp rest h v = ground arith

-- Decoding the encoding of a scalar value gives it back and leaves what follows.
pub decode_utf8-encode :
    (cp : ℕ) (rest : Bytes) → IsScalar cp → decode_utf8 (encode cp ++ rest) ≡ (cp, rest)
decode_utf8-encode cp rest v = elim (Bool-cases (ltb cp 0x80)) [
  | inl ascii ↦ unfold decode_utf8 encode in ground arith
  | inr a ↦ elim (Bool-cases (ltb cp 0x800)) [
    | inl two ↦ decode_two cp rest (ground arith) (ground arith)
    | inr b ↦ elim (Bool-cases (ltb cp 0x10000)) [
      | inl three ↦ decode_three cp rest (ground arith) (ground arith) v
      | inr four ↦ decode_four cp rest (ground arith) v
    ]
  ]
]

length-continuation :
    (n cp : ℕ) (s : Bytes) (cp' : ℕ) (rest : Bytes)
    → continuation n cp s ≡ some (cp', rest)
    → length rest ≤ length s
unfolding continuation
length-continuation zero cp s cp' rest h = ground arith
length-continuation (suc n) cp [] cp' rest h = cc
length-continuation (suc n) cp (c ∷ s) cp' rest h =
    ground (arith, length-continuation n (cp * 64 + c % 64) s cp' rest)

length-accept :
    (n : ℕ) (o : Option (ℕ × Bytes)) (s : Bytes)
    → ((cp' : ℕ) (rest : Bytes) → o ≡ some (cp', rest) → length rest ≤ length s)
    → length (accept n o s).1 ≤ length s
unfolding accept
length-accept n none s h = omega arith
length-accept n (some (cp, rest)) s h = ground (arith, h cp rest refl)

length-sequence : (o : Option (ℕ × ℕ)) (s : Bytes) → length (sequence o s).1 ≤ length s
unfolding sequence
length-sequence none s = omega arith
length-sequence (some (n, bits)) s =
    length-accept n (continuation n bits s) s (length-continuation n bits s)

-- Decoding takes at least one byte.
pub length-decode_utf8 : (c : ℕ) (s : Bytes) → length (decode_utf8 (c ∷ s)).1 ≤ length s
unfolding decode_utf8
length-decode_utf8 c s = ground (arith, length-sequence (lead c) s)
