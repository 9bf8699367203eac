-- ===== src/Base/Text.antt =====
-- Byte strings: literals, and the members of `std::string` that the program calls.
use Prim.Native.Nat.{ℕ, ◌+◌, ◌<◌}
use Prim.Native.Char.{code}
use Prim.Native.String.{String}
use mathlib.Core.Path.{◌≡◌}
use mathlib.Core.Logic.{◌↔◌}
use mathlib.Core.Bool.{Bool, true, false, ◌&&◌, ◌||◌}
use mathlib.Core.Option.{Option, none, some}
use mathlib.Core.List.{List, [], ◌∷◌, reverse}
use native.Mathlib.Omega.{arith}
use shadow_se.Base.Tests.{◌==◌, within, if◌then◌else◌}

abbrev pub Bytes : Type 0
Bytes = List ℕ

abbrev pub IsByte : ℕ → Type 0
IsByte c = c < 256

-- An ASCII literal.
abbrev pub codes : String → Bytes
codes String.[] = []
codes (String.◌∷◌ c s) = code c ∷ codes s

-- s == t
unfoldable pub same_bytes : Bytes → Bytes → Bool
same_bytes [] [] = true
same_bytes (x ∷ xs) (y ∷ ys) = x == y && same_bytes xs ys
same_bytes _ _ = false

pub same_bytes_iff : (s t : Bytes) → (same_bytes s t ≡ true) ↔ (s ≡ t)
unfolding same_bytes
same_bytes_iff (x ∷ xs) (y ∷ ys) = ground (arith, same_bytes_iff xs ys)
same_bytes_iff _ _ = ground arith

-- s.empty()
abbrev pub is_empty : Bytes → Bool
is_empty [] = true
is_empty (c ∷ s) = false

-- s.compare(0, p.size(), p) == 0, or s.rfind(p, 0) == 0
unfoldable pub starts_with : Bytes → Bytes → Bool
starts_with [] s = true
starts_with (x ∷ p) [] = false
starts_with (x ∷ p) (y ∷ s) = x == y && starts_with p s

-- s.find(p) != npos
unfoldable pub has_sub : Bytes → Bytes → Bool
unfolding starts_with
has_sub p [] = is_empty p
has_sub p (c ∷ s) = starts_with p (c ∷ s) || has_sub p s

abbrev pub keep_head : ℕ → Option (Bytes × Bytes) → Option (Bytes × Bytes)
keep_head c none = none
keep_head c (some (a, b)) = some (c ∷ a, b)

-- The text before the first `c`, and the text behind it: `s.find(c)` with both `substr`.
unfoldable pub cut : ℕ → Bytes → Option (Bytes × Bytes)
cut c [] = none
cut c (x ∷ s) = if x == c then some ([], s) else keep_head x (cut c s)

-- The text before the first `p`, and from it on.
unfoldable pub cut_sub : Bytes → Bytes → Option (Bytes × Bytes)
unfolding starts_with
cut_sub p [] = if is_empty p then some ([], []) else none
cut_sub p (x ∷ s) =
    let rest = keep_head x (cut_sub p s) in if starts_with p (x ∷ s) then some ([], x ∷ s) else rest

-- The text before the first byte that passes the test, and from it on.
unfoldable pub span_until : (ℕ → Bool) → Bytes → Bytes × Bytes
span_until test [] = ([], [])
span_until test (x ∷ s) =
    let (a, b) = span_until test s in if test x then ([], x ∷ s) else (x ∷ a, b)

-- std::isspace in the C locale.
unfoldable pub is_space : ℕ → Bool
is_space c = within 9 13 c || c == 32

unfoldable pub skip_space : Bytes → Bytes
unfolding is_space
skip_space [] = []
skip_space (c ∷ s) = if is_space c then skip_space s else c ∷ s

-- Both ends.
unfoldable pub trim : Bytes → Bytes
unfolding skip_space
trim s = reverse (skip_space (reverse (skip_space s)))

-- `c - 'A' + 'a'` for an ASCII capital.
unfoldable pub lower_byte : ℕ → ℕ
lower_byte c = if within b'A' b'Z' c then c + 32 else c

unfoldable pub lower_ascii : Bytes → Bytes
unfolding lower_byte
lower_ascii [] = []
lower_ascii (c ∷ s) = lower_byte c ∷ lower_ascii s
