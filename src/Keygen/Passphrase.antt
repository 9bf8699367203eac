-- ===== src/Keygen/Passphrase.antt =====
-- src/se_keygen.cpp: the passphrase, and the texts of the keys on the test vectors of RFC 4648.
use shadow_se.Base.{ℕ, zero, suc, ◌+◌, ◌%◌, ◌/◌, ◌<◌, ◌≡◌, refl, true, All, length, codes, arith}
use shadow_se.Base.Tests.{passes, passes-below}
use shadow_se.Html.Links.{has_byte}
use shadow_se.Keygen.{
  char_at, passphrase_alphabet, passphrase_from, passphrase, b64_unpadded, b32_unpadded,
}

b64_foobar : b64_unpadded (codes "fooba") ≡ codes "Zm9vYmE"
unfolding b64_unpadded
b64_foobar = refl

b32_foobar : b32_unpadded (codes "foobar") ≡ codes "MZXW6YTBOI"
unfolding b32_unpadded
b32_foobar = refl

-- A character of the passphrase's alphabet.
abbrev pub IsAllowed : ℕ → Type 0
IsAllowed c = has_byte c passphrase_alphabet ≡ true

char_at-IsAllowed : (i : ℕ) → i < 69 → IsAllowed (char_at i passphrase_alphabet)
unfolding passes char_at has_byte
char_at-IsAllowed i h =
    passes-below (λ j. has_byte (char_at j passphrase_alphabet) passphrase_alphabet) 69 refl i h

passphrase_from-IsAllowed :
    (random : ℕ → ℕ → ℕ) (i n : ℕ)
    → (length (passphrase_from random i n) ≡ n) × All IsAllowed (passphrase_from random i n)
unfolding passphrase_from
passphrase_from-IsAllowed random i zero = (refl, tt)
passphrase_from-IsAllowed random i (suc n) =
    let rest = passphrase_from-IsAllowed random (i + 1) n in
    (
      omega (arith, rest.0),
      (char_at-IsAllowed (random (i / 64) (i % 64) % 69) (omega arith), rest.1),
    )

-- Whatever the random bytes are, a passphrase has the length that was asked for and only characters of its
-- alphabet.
pub passphrase-IsAllowed :
    (random : ℕ → ℕ → ℕ) (n : ℕ)
    → (length (passphrase random n) ≡ n) × All IsAllowed (passphrase random n)
unfolding passphrase
passphrase-IsAllowed random n = passphrase_from-IsAllowed random 0 n
