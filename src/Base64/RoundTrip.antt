-- ===== src/Base64/RoundTrip.antt =====
-- src/crypto.cpp: Base64 there and back.
use shadow_se.Base.{
  ℕ, ◌+◌, ◌*◌, ◌/◌, ◌%◌, ◌<◌, ◌≡◌, refl, ap, ◌∙◌, arith, false, some, [], ◌∷◌, ◌==◌, Bytes, IsByte,
  All,
}
use shadow_se.Base64.{
  base64_char, sextet, to_base64, base64_value, shift_in, decode_from, from_base64,
}

base64_value-base64_char : (d : ℕ) → d < 64 → base64_value (base64_char d) ≡ some d
unfolding base64_value base64_char
base64_value-base64_char d h = ground arith

base64_char_ne : (d : ℕ) → d < 64 → base64_char d == b'=' ≡ false
unfolding base64_char
base64_char_ne d h = ground arith

module _ (buffer d : ℕ) (s : Bytes) (h : d < 64) where
  decode_from-0 : decode_from buffer 0 (base64_char d ∷ s) ≡ decode_from (shift_in buffer d) 6 s
  unfolding decode_from
  decode_from-0 = rw (base64_char_ne d h, base64_value-base64_char d h) refl

  decode_from-6 :
      decode_from buffer 6 (base64_char d ∷ s)
      ≡ shift_in buffer d / 16 % 256 ∷ decode_from (shift_in buffer d) 4 s
  unfolding decode_from
  decode_from-6 = rw (base64_char_ne d h, base64_value-base64_char d h) refl

  decode_from-4 :
      decode_from buffer 4 (base64_char d ∷ s)
      ≡ shift_in buffer d / 4 % 256 ∷ decode_from (shift_in buffer d) 2 s
  unfolding decode_from
  decode_from-4 = rw (base64_char_ne d h, base64_value-base64_char d h) refl

  decode_from-2 :
      decode_from buffer 2 (base64_char d ∷ s)
      ≡ shift_in buffer d % 256 ∷ decode_from (shift_in buffer d) 0 s
  unfolding decode_from
  decode_from-2 =
      rw (base64_char_ne d h, base64_value-base64_char d h)
        (ap (λ x. x % 256 ∷ decode_from (shift_in buffer d) 0 s) (omega arith))

-- What the buffer has after two, three and four digits of `v`.
module _ (buffer v : ℕ) (h : v < 16777216) where
  abbrev after_two : ℕ
  after_two = shift_in (shift_in buffer (v / 262144 % 64)) (v / 4096 % 64)

  abbrev after_three : ℕ
  after_three = shift_in after_two (v / 64 % 64)

  abbrev after_four : ℕ
  after_four = shift_in after_three (v / 1 % 64)

  first_byte : after_two / 16 % 256 ≡ v / 65536
  unfolding shift_in
  first_byte = omega arith

  second_byte : after_three / 4 % 256 ≡ v / 256 % 256
  unfolding shift_in
  second_byte = omega arith

  third_byte : after_four % 256 ≡ v % 256
  unfolding shift_in
  third_byte = omega arith

  decode_from-two :
      (s : Bytes)
      → decode_from buffer 0 (sextet v 18 ∷ sextet v 12 ∷ s) ≡ v / 65536 ∷ decode_from after_two 4 s
  unfolding sextet
  decode_from-two s =
      decode_from-0 buffer (v / 262144 % 64) _ (omega arith)
      ∙ decode_from-6 _ (v / 4096 % 64) s (omega arith)
      ∙ ap (λ x. x ∷ decode_from after_two 4 s) first_byte

  decode_from-three :
      (s : Bytes)
      → decode_from buffer 0 (sextet v 18 ∷ sextet v 12 ∷ sextet v 6 ∷ s)
        ≡ v / 65536 ∷ v / 256 % 256 ∷ decode_from after_three 2 s
  unfolding sextet
  decode_from-three s =
      decode_from-two (base64_char (v / 64 % 64) ∷ s)
      ∙ ap (λ xs. v / 65536 ∷ xs)
          (decode_from-4 after_two (v / 64 % 64) s (omega arith)
            ∙ ap (λ x. x ∷ decode_from after_three 2 s) second_byte)

  decode_from-four :
      (s : Bytes)
      → decode_from buffer 0 (sextet v 18 ∷ sextet v 12 ∷ sextet v 6 ∷ sextet v 0 ∷ s)
        ≡ v / 65536 ∷ v / 256 % 256 ∷ v % 256 ∷ decode_from after_four 0 s
  unfolding sextet
  decode_from-four s =
      decode_from-three (base64_char (v / 1 % 64) ∷ s)
      ∙ ap (λ xs. v / 65536 ∷ v / 256 % 256 ∷ xs)
          (decode_from-2 after_three (v / 1 % 64) s (omega arith)
            ∙ ap (λ x. x ∷ decode_from after_four 0 s) third_byte)

cons-cong : {x y : ℕ} {xs ys : Bytes} → x ≡ y → xs ≡ ys → ◌≡◌ {A = Bytes} (x ∷ xs) (y ∷ ys)
cons-cong p q = λ i. p i ∷ q i

decode_from-to_base64 :
    (bytes : Bytes) (buffer : ℕ) → All IsByte bytes → decode_from buffer 0 (to_base64 bytes) ≡ bytes
unfolding to_base64
decode_from-to_base64 [] buffer h = unfold decode_from in refl
decode_from-to_base64 (a ∷ []) buffer (ha, h) =
    decode_from-two buffer (a * 65536) (omega arith) []
    ∙ unfold decode_from in ap (λ x. x ∷ []) (omega arith)
decode_from-to_base64 (a ∷ b ∷ []) buffer (ha, (hb, h)) =
    decode_from-three buffer (a * 65536 + b * 256) (omega arith) []
    ∙ unfold decode_from in cons-cong (omega arith) (cons-cong (omega arith) refl)
decode_from-to_base64 (a ∷ b ∷ c ∷ s) buffer (ha, (hb, (hc, h))) =
    decode_from-four buffer (a * 65536 + b * 256 + c) (omega arith) (to_base64 s)
    ∙ cons-cong (omega arith)
        (cons-cong (omega arith) (cons-cong (omega arith) (decode_from-to_base64 s _ h)))

-- Decoding the Base64 text of bytes gives the bytes back.
pub from_base64-to_base64 :
    (bytes : Bytes) → All IsByte bytes → from_base64 (to_base64 bytes) ≡ bytes
unfolding from_base64
from_base64-to_base64 bytes h = decode_from-to_base64 bytes 0 h
