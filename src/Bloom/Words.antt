-- ===== src/Bloom/Words.antt =====
-- Single bits of a word, and what `|` and `&` do to them.
use Prim.Native.Nat.{min, max, digits, bit_and, bit_or, bit_and-bitwise, bit_or-bitwise}
use native.Mathlib.Nat.{pow-suc}
use shadow_se.Base.{ℕ, zero, suc, ◌+◌, ◌*◌, ◌/◌, ◌%◌, ◌^◌, ◌≤◌, ◌<◌, ◌≡◌, ◌≢◌, refl, ap, arith}

-- Digit `k` of `x`.
pub bit : ℕ → ℕ → ℕ
bit zero x = x % 2
bit (suc k) x = bit k (x / 2)

pub bit-zero : (k : ℕ) → bit k 0 ≡ 0
unfolding bit
bit-zero zero = refl
bit-zero (suc k) = bit-zero k

bit-two_pow : (k : ℕ) → bit k (2 ^ k) ≡ 1
unfolding bit
bit-two_pow zero = refl
bit-two_pow (suc k) =
    let half : 2 ^ suc k / 2 ≡ 2 ^ k = omega (arith, pow-suc 2 k) in rw half (bit-two_pow k)

-- A bitwise operation acts on each digit by its operation on digits.
module _ (z : ℕ → ℕ) (f : ℕ → ℕ → ℕ) (digit : (a b : ℕ) → f (a % 2) (b % 2) < 2)
    (ends : (k b : ℕ) → bit k (z b) ≡ f 0 (bit k b)) where
  bit-digits : (k n a b : ℕ) → a ≤ n → bit k (digits z f n a b) ≡ f (bit k a) (bit k b)
  unfolding bit
  bit-digits k zero zero b h = rw bit-zero (ends k b)
  bit-digits k zero (suc a) b h = absurd (omega arith)
  bit-digits k (suc n) zero b h = rw bit-zero (ends k b)
  bit-digits zero (suc n) (suc a) b h = omega (arith, digit (suc a) b)
  bit-digits (suc k) (suc n) (suc a) b h =
      let low = f (suc a % 2) (b % 2) in
      let high = digits z f n (suc a / 2) (b / 2) in
      let e : (high * 2 + low) / 2 ≡ high = omega (arith, digit (suc a) b) in
      rw e (bit-digits k n (suc a / 2) (b / 2) (omega arith))

pub bit-bit_or : (k a b : ℕ) → bit k (bit_or a b) ≡ max (bit k a) (bit k b)
bit-bit_or k a b =
    rw bit_or-bitwise
      (bit-digits (λ y. y) max (λ x y. omega arith) (λ j y. omega arith) k a a b (omega arith))

pub bit-bit_and : (k a b : ℕ) → bit k (bit_and a b) ≡ min (bit k a) (bit k b)
bit-bit_and k a b = rw bit_and-bitwise (
    bit-digits (λ y. 0) min (λ x y. omega arith) (λ j y. omega (arith, bit-zero j)) k a a b
      (omega arith))

-- The mask of one bit finds it.
pub mask_finds : (k w : ℕ) → 1 ≤ bit k w → bit_and w (2 ^ k) ≢ 0
mask_finds k w h e =
    omega (arith, h, bit-two_pow k, bit-bit_and k w (2 ^ k), bit-zero k, ap (bit k) e)

-- It sets it, and clears none.
pub mask_sets : (k w : ℕ) → 1 ≤ bit k (bit_or w (2 ^ k))
mask_sets k w = omega (arith, bit-two_pow k, bit-bit_or k w (2 ^ k))

pub zero-bit_and : (b : ℕ) → bit_and 0 b ≡ 0
zero-bit_and b = bit_and-bitwise 0 b
