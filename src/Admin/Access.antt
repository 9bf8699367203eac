-- ===== src/Admin/Access.antt =====
-- src/admin.cpp: who sees the dashboard.
use shadow_se.Base.{
  ℕ, ◌/◌, ◌%◌, ◌<◌, ◌≡◌, ◌↔◌, refl, ap, ◌∙◌, arith, Bool, true, false, ◌&&◌, Bool-cases, inl, inr,
  Option, none, some, List, [], ◌∷◌, ◌==◌, length, map, Bytes, IsByte, All, codes, same_bytes,
  same_bytes_iff, cut, starts_with, has_sub,
}
use shadow_se.Web.{
  request_line, method_and_target, split_target, pieces, first_param, hex_digit, hex_pair,
}
use shadow_se.Admin.{
  hex_char, to_hex, compare_bytes, token_matches, authorized_by, authorized, dashboard, reply_to,
}

compare_bytes-false : (t token : Bytes) → compare_bytes false t token ≡ false
unfolding compare_bytes
compare_bytes-false (x ∷ t) (y ∷ token) = compare_bytes-false t token
compare_bytes-false [] token = refl
compare_bytes-false (x ∷ t) [] = refl

compare_bytes_lem :
    (same : Bool) (t token : Bytes)
    → length t ≡ length token
    → compare_bytes same t token ≡ (same && same_bytes t token)
unfolding compare_bytes same_bytes
compare_bytes_lem same (x ∷ t) (y ∷ token) h =
    compare_bytes_lem (same && x == y) t token (omega arith) ∙ ground arith
compare_bytes_lem same [] [] h = ground arith
compare_bytes_lem same [] (y ∷ token) h = absurd (omega arith)
compare_bytes_lem same (x ∷ t) [] h = absurd (omega arith)

length-cong : (t token : Bytes) → t ≡ token → length t ≡ length token
length-cong t token e = ap length e

-- The comparison accepts the token and nothing else.
pub token_matches_iff : (token t : Bytes) → (token_matches token t ≡ true) ↔ (t ≡ token)
unfolding token_matches
token_matches_iff token t = elim (Bool-cases (length t == length token)) [
  | inl same ↦ ground (arith, compare_bytes_lem true t token (ground arith), same_bytes_iff t token)
  | inr other ↦ ground (arith, compare_bytes-false t token, length-cong t token)
]

authorized_by_iff :
    (token : Bytes) (o : Option Bytes) → (authorized_by token o ≡ true) ↔ (o ≡ some token)
unfolding authorized_by
authorized_by_iff token none = ground arith
authorized_by_iff token (some t) = ground (arith, token_matches_iff token t)

root_target :
    (target : Bytes)
    → (split_target target).0 ≡ codes "/"
    → (starts_with (codes "/") target ≡ true) × (starts_with (codes "/healthz") target ≡ false)
unfolding split_target cut starts_with
root_target [] h = absurd (ground arith)
root_target (c ∷ []) h = ground arith
root_target (c ∷ d ∷ s) h = elim (Bool-cases (c == b'?')) [
  | inl q ↦ absurd (ground arith)
  | inr p ↦ ground arith
]

-- The dashboard is sent exactly for a GET of the path `/`, with no `..` in the target, whose first
-- `t=` parameter is the token.
pub reply_to-dashboard :
    (token head : Bytes)
    → let (method, target) = method_and_target (request_line head) in
      (reply_to token head ≡ dashboard) ↔ (
        (method ≡ codes "GET")
        × (has_sub (codes "..") target ≡ false)
        × ((split_target target).0 ≡ codes "/")
        × (first_param (codes "t=") (pieces (split_target target).1) ≡ some token))
unfolding reply_to authorized
reply_to-dashboard token head =
    let target = (method_and_target (request_line head)).1 in
    let t = first_param (codes "t=") (pieces (split_target target).1) in
    let method = same_bytes_iff (method_and_target (request_line head)).0 (codes "GET") in
    let path = same_bytes_iff (split_target target).0 (codes "/") in
    (
      λ h. ground (arith, method, path, authorized_by_iff token t),
      λ h. ground (arith, method, path, authorized_by_iff token t, root_target target h.2),
    )

hex_digit-hex_char : (d : ℕ) → d < 16 → hex_digit (hex_char d) ≡ some d
unfolding hex_digit hex_char
hex_digit-hex_char d h = ground arith

hex_pair-hex_char :
    (c : ℕ)
    → c < 256
    → hex_pair (hex_digit (hex_char (c / 16))) (hex_digit (hex_char (c % 16))) ≡ some c
unfolding hex_pair
hex_pair-hex_char c h =
    rw (hex_digit-hex_char (c / 16) (omega arith), hex_digit-hex_char (c % 16) (omega arith))
      (ap some (omega arith))

-- The bytes that pairs of hexadecimal digits stand for.
unfoldable pub from_hex : Bytes → List (Option ℕ)
from_hex (h ∷ l ∷ s) = hex_pair (hex_digit h) (hex_digit l) ∷ from_hex s
from_hex _ = []

-- The hexadecimal text of bytes, read in pairs of digits, gives the bytes back.
pub from_hex-to_hex : (bytes : Bytes) → All IsByte bytes → from_hex (to_hex bytes) ≡ map some bytes
unfolding from_hex to_hex
from_hex-to_hex [] h = refl
from_hex-to_hex (c ∷ bytes) (b, h) =
    rw (hex_pair-hex_char c b) (ap (λ xs. some c ∷ xs) (from_hex-to_hex bytes h))
