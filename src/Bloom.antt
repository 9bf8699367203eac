-- ===== src/Bloom.antt =====
-- src/bloom_filter.cpp. `std::hash<std::string>` is the parameter `hash`: the source uses it as a
-- function of the key alone. The sizes `m` and `k` come from floating-point formulas in the
-- constructor, which ends with both at least 1; they are fields here.
pub mod Words
pub mod Membership
use Prim.Native.Nat.{bit_and, bit_or, bit_xor}
use shadow_se.Base.{
  ℕ, zero, suc, ◌+◌, ◌*◌, ◌/◌, ◌%◌, ◌^◌, Bool, true, false, List, [], ◌∷◌, ◌==◌, if◌then◌else◌,
  Bytes, map,
}

pub record BloomFilter : Type 0 where
  pub bits : List ℕ
  pub m : ℕ
  pub k : ℕ

-- One round of FNV-1a on 64 bits.
unfoldable pub fnv1a_step : ℕ → ℕ → ℕ
fnv1a_step hash c = bit_xor hash c * 1099511628211 % 2 ^ 64

unfoldable pub fnv1a_from : ℕ → Bytes → ℕ
unfolding fnv1a_step
fnv1a_from hash [] = hash
fnv1a_from hash (c ∷ s) = fnv1a_from (fnv1a_step hash c) s

unfoldable pub fnv1a : Bytes → ℕ
unfolding fnv1a_from
fnv1a = fnv1a_from 1469598103934665603

-- `bits_.assign((m_ + 63) / 64, 0)`
unfoldable pub replicate : ℕ → ℕ → List ℕ
replicate zero x = []
replicate (suc n) x = x ∷ replicate n x

-- The constructor, from the sizes on: both are raised to 1.
unfoldable pub make : ℕ → ℕ → BloomFilter
make m k =
    let m' = if m == 0 then 1 else m in
    let k' = if k == 0 then 1 else k in
    record { bits = replicate ((m' + 63) / 64) 0; m = m'; k = k' }

-- `bits_[i]`, and the write to it; both indices are in range in the source's calls.
unfoldable pub word : List ℕ → ℕ → ℕ
word [] i = 0
word (w ∷ ws) zero = w
word (w ∷ ws) (suc i) = word ws i

unfoldable pub or_word : List ℕ → ℕ → ℕ → List ℕ
or_word [] i v = []
or_word (w ∷ ws) zero v = bit_or w v ∷ ws
or_word (w ∷ ws) (suc i) v = w ∷ or_word ws i v

unfoldable pub set_bit : List ℕ → ℕ → List ℕ
unfolding or_word
set_bit bits b = or_word bits (b / 64) (2 ^ (b % 64))

unfoldable pub has_bit : List ℕ → ℕ → Bool
unfolding word
has_bit bits b = if bit_and (word bits (b / 64)) (2 ^ (b % 64)) == 0 then false else true

-- `h2`, never 0.
unfoldable pub second_hash : Bytes → ℕ
unfolding fnv1a
second_hash key = if fnv1a key == 0 then 1 else fnv1a key

-- The bit of round `i`: 64-bit arithmetic, then the remainder by `m_`.
unfoldable pub bit_at : ℕ → ℕ → ℕ → ℕ → ℕ
bit_at h1 h2 m i = (h1 + i * h2) % 2 ^ 64 % m

-- The two loops, on the rounds left and the round's number.
unfoldable pub insert_rounds : ℕ → ℕ → (ℕ → ℕ) → List ℕ → List ℕ
unfolding set_bit
insert_rounds zero i bit bits = bits
insert_rounds (suc n) i bit bits = insert_rounds n (i + 1) bit (set_bit bits (bit i))

unfoldable pub contains_rounds : ℕ → ℕ → (ℕ → ℕ) → List ℕ → Bool
unfolding has_bit
contains_rounds zero i bit bits = true
contains_rounds (suc n) i bit bits =
    let rest = contains_rounds n (i + 1) bit bits in if has_bit bits (bit i) then rest else false

module _ (hash : Bytes → ℕ) where
  unfoldable pub insert : BloomFilter → Bytes → BloomFilter
  unfolding insert_rounds second_hash bit_at
  insert f key = record f {
    bits = insert_rounds f.k 0 (bit_at (hash key) (second_hash key) f.m) f.bits;
  }

  unfoldable pub maybe_contains : BloomFilter → Bytes → Bool
  unfolding contains_rounds second_hash bit_at
  maybe_contains f key = contains_rounds f.k 0 (bit_at (hash key) (second_hash key) f.m) f.bits

unfoldable pub clear : BloomFilter → BloomFilter
clear f = record f { bits = map (λ b. 0) f.bits }
