-- ===== src/Keygen.antt =====
-- src/se_keygen.cpp: the texts of the generated keys and the passphrase. `random k i` is byte `i` of the
-- buffer that libsodium fills for the `k`-th time.
pub mod Passphrase
use shadow_se.Base.{
  ℕ, zero, suc, ◌+◌, ◌-◌, ◌*◌, ◌/◌, ◌%◌, ◌^◌, Bool, true, false, Option, none, some, List, [], ◌∷◌,
  ◌++◌, ltb, ◌==◌, if◌then◌else◌, length, Bytes, codes,
}
use shadow_se.TorPool.{nth}

abbrev pub base64_alphabet : Bytes
base64_alphabet = codes "ABCDEFGHIJKLMNOPQRSTUVWXYZabcdefghijklmnopqrstuvwxyz0123456789+/"

abbrev pub base32_alphabet : Bytes
base32_alphabet = codes "ABCDEFGHIJKLMNOPQRSTUVWXYZ234567"

-- `s[i]`; the source's indices are in range.
unfoldable pub char_at : ℕ → Bytes → ℕ
unfolding nth
char_at i s = elim (nth i s) [ none ↦ 0 | some c ↦ c ]

unfoldable pub base64_char_at : ℕ → ℕ
unfolding char_at
base64_char_at v = char_at (v % 64) base64_alphabet

-- `b64Unpadded`: three bytes a round, and the one or two that are left.
unfoldable pub b64_unpadded : Bytes → Bytes
unfolding base64_char_at
b64_unpadded [] = []
b64_unpadded (a ∷ []) =
    let v = a * 2 ^ 16 in base64_char_at (v / 2 ^ 18) ∷ base64_char_at (v / 2 ^ 12) ∷ []
b64_unpadded (a ∷ b ∷ []) =
    let v = a * 2 ^ 16 + b * 2 ^ 8 in
    base64_char_at (v / 2 ^ 18) ∷ base64_char_at (v / 2 ^ 12) ∷ base64_char_at (v / 2 ^ 6) ∷ []
b64_unpadded (a ∷ b ∷ c ∷ s) =
    let v = a * 2 ^ 16 + b * 2 ^ 8 + c in
    base64_char_at (v / 2 ^ 18)
    ∷ base64_char_at (v / 2 ^ 12)
    ∷ base64_char_at (v / 2 ^ 6)
    ∷ base64_char_at v
    ∷ b64_unpadded s

-- The inner loop of `b32Unpadded`, which ends with fewer than five bits: on fuel, the number of
-- bits.
unfoldable pub b32_digits : ℕ → ℕ → ℕ → Bytes
unfolding char_at
b32_digits zero buffer bits = []
b32_digits (suc n) buffer bits =
    let rest = b32_digits n buffer (bits - 5) in
    if ltb bits 5 then [] else char_at (buffer / 2 ^ (bits - 5) % 32) base32_alphabet ∷ rest

unfoldable pub b32_from : ℕ → ℕ → Bytes → Bytes
unfolding b32_digits
b32_from buffer bits [] =
    if bits == 0 then [] else char_at (buffer * 2 ^ (5 - bits) % 2 ^ 64 % 32) base32_alphabet ∷ []
b32_from buffer bits (c ∷ s) =
    let buffer' = (buffer * 2 ^ 8 + c) % 2 ^ 64 in
    b32_digits (bits + 8) buffer' (bits + 8) ++ b32_from buffer' ((bits + 8) % 5) s

unfoldable pub b32_unpadded : Bytes → Bytes
unfolding b32_from
b32_unpadded data_bytes = b32_from 0 0 data_bytes

abbrev pub passphrase_alphabet : Bytes
passphrase_alphabet = codes "ABCDEFGHJKLMNPQRSTUVWXYZabcdefghijkmnopqrstuvwxyz23456789!@#$%^&*-_=+"

-- The characters that are still missing behind the first `i`.
unfoldable pub passphrase_from : (ℕ → ℕ → ℕ) → ℕ → ℕ → Bytes
unfolding char_at
passphrase_from random i zero = []
passphrase_from random i (suc n) =
    char_at (random (i / 64) (i % 64) % length passphrase_alphabet) passphrase_alphabet
    ∷ passphrase_from random (i + 1) n

unfoldable pub passphrase : (ℕ → ℕ → ℕ) → ℕ → Bytes
unfolding passphrase_from
passphrase random n = passphrase_from random 0 n
