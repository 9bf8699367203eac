-- ===== src/Base64.antt =====
-- src/crypto.cpp: the Base64 codec. The cipher and the key derivation are libsodium's.
pub mod RoundTrip
use shadow_se.Base.{
  ℕ, zero, suc, ◌+◌, ◌-◌, ◌*◌, ◌/◌, ◌%◌, ◌^◌, Bool, true, false, ◌||◌, Option, none, some, List, [],
  ◌∷◌, ltb, ◌==◌, within, if◌then◌else◌, Bytes,
}

-- `kBase64Alphabet[d]`: the capitals, the small letters, the digits, `-` and `_`.
unfoldable pub base64_char : ℕ → ℕ
base64_char d =
    if ltb d 26
    then d + b'A'
    else if ltb d 52
    then d - 26 + b'a'
    else if ltb d 62
    then d - 52 + b'0'
    else if d == 62
    then b'-'
    else b'_'

-- The digit of `v` from bit `shift` on: `kBase64Alphabet[(v >> shift) & 63]`.
unfoldable pub sextet : ℕ → ℕ → ℕ
sextet v shift = base64_char (v / 2 ^ shift % 64)

unfoldable pub to_base64 : Bytes → Bytes
to_base64 [] = []
to_base64 (a ∷ []) = let v = a * 65536 in sextet v 18 ∷ sextet v 12 ∷ []
to_base64 (a ∷ b ∷ []) = let v = a * 65536 + b * 256 in sextet v 18 ∷ sextet v 12 ∷ sextet v 6 ∷ []
to_base64 (a ∷ b ∷ c ∷ s) =
    let v = a * 65536 + b * 256 + c in
    sextet v 18 ∷ sextet v 12 ∷ sextet v 6 ∷ sextet v 0 ∷ to_base64 s

-- `none` for -1.
unfoldable pub base64_value : ℕ → Option ℕ
base64_value c =
    if within b'A' b'Z' c
    then some (c - b'A')
    else if within b'a' b'z' c
    then some (c - b'a' + 26)
    else if within b'0' b'9' c
    then some (c - b'0' + 52)
    else if c == b'-' || c == b'+'
    then some 62
    else if c == b'_' || c == b'/'
    then some 63
    else none

-- `buffer << 6 | v` on 32 bits.
unfoldable pub shift_in : ℕ → ℕ → ℕ
shift_in buffer v = buffer * 64 % 2 ^ 32 + v

-- The loop of `fromBase64`, on the buffer and the number of its bits that are not read yet.
unfoldable pub decode_from : ℕ → ℕ → Bytes → Bytes
decode_from buffer bits [] = []
decode_from buffer bits (c ∷ s) = if c == b'=' then [] else elim (base64_value c) [
  | none ↦ decode_from buffer bits s
  | some v ↦
      let buffer' = shift_in buffer v in
      let more = decode_from buffer' (bits + 6) s in
      let rest = decode_from buffer' (bits + 6 - 8) s in
      if ltb (bits + 6) 8 then more else buffer' / 2 ^ (bits + 6 - 8) % 256 ∷ rest
]

unfoldable pub from_base64 : Bytes → Bytes
unfolding decode_from
from_base64 b64 = decode_from 0 0 b64
