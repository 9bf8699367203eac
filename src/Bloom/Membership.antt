-- ===== src/Bloom/Membership.antt =====
-- No key that was inserted is ever reported absent.
use native.Mathlib.Nat.{mod-lt}
use shadow_se.Base.{
  ℕ, zero, suc, ◌+◌, ◌*◌, ◌/◌, ◌%◌, ◌^◌, ◌≤◌, ◌<◌, ◌≡◌, refl, ap, ◌∙◌, arith, true, false, List, [],
  ◌∷◌, length, Bytes, map,
}
use shadow_se.Bloom.{
  BloomFilter, make, replicate, word, or_word, set_bit, has_bit, bit_at, second_hash, insert_rounds,
  contains_rounds, insert, maybe_contains, clear,
}
use shadow_se.Bloom.Words.{bit, bit-bit_or, mask_finds, mask_sets, zero-bit_and}

-- Bit `b` of the filter's words is set.
abbrev Holds : List ℕ → ℕ → Type 0
Holds bits b = 1 ≤ bit (b % 64) (word bits (b / 64))

or_word-keeps :
    (k : ℕ) (ws : List ℕ) (i j v : ℕ) → 1 ≤ bit k (word ws j) → 1 ≤ bit k (word (or_word ws i v) j)
unfolding word or_word
or_word-keeps k [] i j v h = h
or_word-keeps k (w ∷ ws) zero zero v h = omega (arith, bit-bit_or k w v)
or_word-keeps k (w ∷ ws) zero (suc j) v h = h
or_word-keeps k (w ∷ ws) (suc i) zero v h = h
or_word-keeps k (w ∷ ws) (suc i) (suc j) v h = or_word-keeps k ws i j v h

or_word-sets :
    (k : ℕ) (ws : List ℕ) (i : ℕ) → i < length ws → 1 ≤ bit k (word (or_word ws i (2 ^ k)) i)
unfolding word or_word
or_word-sets k [] i h = absurd (omega arith)
or_word-sets k (w ∷ ws) zero h = mask_sets k w
or_word-sets k (w ∷ ws) (suc i) h = or_word-sets k ws i (omega arith)

length-or_word : (ws : List ℕ) (i v : ℕ) → length (or_word ws i v) ≡ length ws
unfolding or_word
length-or_word [] i v = refl
length-or_word (w ∷ ws) zero v = refl
length-or_word (w ∷ ws) (suc i) v = ap suc (length-or_word ws i v)

set_bit-keeps : (bits : List ℕ) (b c : ℕ) → Holds bits c → Holds (set_bit bits b) c
unfolding set_bit
set_bit-keeps bits b c h = or_word-keeps (c % 64) bits (b / 64) (c / 64) (2 ^ (b % 64)) h

set_bit-sets : (bits : List ℕ) (b : ℕ) → b / 64 < length bits → Holds (set_bit bits b) b
unfolding set_bit
set_bit-sets bits b h = or_word-sets (b % 64) bits (b / 64) h

length-set_bit : (bits : List ℕ) (b : ℕ) → length (set_bit bits b) ≡ length bits
unfolding set_bit
length-set_bit bits b = length-or_word bits (b / 64) (2 ^ (b % 64))

has_bit_of_Holds : (bits : List ℕ) (b : ℕ) → Holds bits b → has_bit bits b ≡ true
unfolding has_bit
has_bit_of_Holds bits b h = ground (arith, mask_finds (b % 64) (word bits (b / 64)))

insert_rounds-keeps :
    (n i : ℕ) (at : ℕ → ℕ) (bits : List ℕ) (c : ℕ)
    → Holds bits c
    → Holds (insert_rounds n i at bits) c
unfolding insert_rounds
insert_rounds-keeps zero i at bits c h = h
insert_rounds-keeps (suc n) i at bits c h =
    insert_rounds-keeps n (i + 1) at (set_bit bits (at i)) c (set_bit-keeps bits (at i) c h)

length-insert_rounds :
    (n i : ℕ) (at : ℕ → ℕ) (bits : List ℕ) → length (insert_rounds n i at bits) ≡ length bits
unfolding insert_rounds
length-insert_rounds zero i at bits = refl
length-insert_rounds (suc n) i at bits =
    length-insert_rounds n (i + 1) at (set_bit bits (at i)) ∙ length-set_bit bits (at i)

-- The rounds from `i` on find their bits set.
abbrev AllHold : ℕ → ℕ → (ℕ → ℕ) → List ℕ → Type 0
AllHold zero i at bits = Unit
AllHold (suc n) i at bits = Holds bits (at i) × AllHold n (i + 1) at bits

insert_rounds-AllHold :
    (n i : ℕ) (at : ℕ → ℕ) (bits : List ℕ)
    → ((r : ℕ) → at r / 64 < length bits)
    → AllHold n i at (insert_rounds n i at bits)
unfolding insert_rounds
insert_rounds-AllHold zero i at bits h = tt
insert_rounds-AllHold (suc n) i at bits h = (
  insert_rounds-keeps n (i + 1) at (set_bit bits (at i)) (at i) (set_bit-sets bits (at i) (h i)),
  insert_rounds-AllHold n (i + 1) at (set_bit bits (at i)) (λ r. rw length-set_bit (h r)),
)

AllHold-insert_rounds :
    (n i : ℕ) (at : ℕ → ℕ) (k j : ℕ) (other : ℕ → ℕ) (bits : List ℕ)
    → AllHold n i at bits
    → AllHold n i at (insert_rounds k j other bits)
AllHold-insert_rounds zero i at k j other bits h = tt
AllHold-insert_rounds (suc n) i at k j other bits h = (
  insert_rounds-keeps k j other bits (at i) h.0,
  AllHold-insert_rounds n (i + 1) at k j other bits h.1,
)

contains_rounds_of_Holds :
    (n i : ℕ) (at : ℕ → ℕ) (bits : List ℕ)
    → AllHold n i at bits
    → contains_rounds n i at bits ≡ true
unfolding contains_rounds
contains_rounds_of_Holds zero i at bits h = refl
contains_rounds_of_Holds (suc n) i at bits h =
    rw (has_bit_of_Holds bits (at i) h.0) (contains_rounds_of_Holds n (i + 1) at bits h.1)

-- The words cover `m` bits.
pub record IsValid (f : BloomFilter) : Type 0 where
  pub some_bits : 0 < f.m
  pub some_rounds : 0 < f.k
  pub covered : f.m ≤ 64 * length f.bits

length-replicate : (n x : ℕ) → length (replicate n x) ≡ n
unfolding replicate
length-replicate zero x = refl
length-replicate (suc n) x = ap suc (length-replicate n x)

-- The constructor's filter is valid, whatever sizes the formulas give.
pub make-IsValid : (m k : ℕ) → IsValid (make m k)
unfolding make
make-IsValid m k = record {
  some_bits = ground arith;
  some_rounds = ground arith;
  covered = grind (arith, length-replicate);
}

module _ (hash : Bytes → ℕ) where
  rounds_in_range :
      (f : BloomFilter) (h1 h2 r : ℕ) → IsValid f → bit_at h1 h2 f.m r / 64 < length f.bits
  unfolding bit_at
  rounds_in_range f h1 h2 r v =
      omega (arith, v.covered, mod-lt ((h1 + r * h2) % 2 ^ 64) v.some_bits)

  pub insert-IsValid : (f : BloomFilter) (key : Bytes) → IsValid f → IsValid (insert hash f key)
  unfolding insert
  insert-IsValid f key v = record {
    some_bits = v.some_bits;
    some_rounds = v.some_rounds;
    covered = rw length-insert_rounds v.covered;
  }

  unfoldable pub insert_all : BloomFilter → List Bytes → BloomFilter
  insert_all f [] = f
  insert_all f (key ∷ keys) = insert_all (insert hash f key) keys

  abbrev Reports : BloomFilter → Bytes → Type 0
  Reports f key = AllHold f.k 0 (bit_at (hash key) (second_hash key) f.m) f.bits

  insert-Reports : (f : BloomFilter) (key : Bytes) → IsValid f → Reports (insert hash f key) key
  unfolding insert
  insert-Reports f key v =
      insert_rounds-AllHold f.k 0 _ f.bits (λ r. rounds_in_range f (hash key) (second_hash key) r v)

  insert_all-Reports :
      (f : BloomFilter) (keys : List Bytes) (key : Bytes)
      → Reports f key
      → Reports (insert_all f keys) key
  unfolding insert_all insert
  insert_all-Reports f [] key h = h
  insert_all-Reports f (k ∷ keys) key h =
      insert_all-Reports (insert hash f k) keys key (AllHold-insert_rounds f.k 0 _ f.k 0 _ f.bits h)

  -- Once a key is inserted into a valid filter, it is reported after any further inserts.
  pub no_false_negative :
      (f : BloomFilter) (key : Bytes) (keys : List Bytes)
      → IsValid f
      → maybe_contains hash (insert_all (insert hash f key) keys) key ≡ true
  unfolding maybe_contains
  no_false_negative f key keys v =
      contains_rounds_of_Holds _ 0 _ _
        (insert_all-Reports (insert hash f key) keys key (insert-Reports f key v))

word-map_zero : (bits : List ℕ) (i : ℕ) → word (map (λ b. 0) bits) i ≡ 0
unfolding word
word-map_zero [] i = refl
word-map_zero (w ∷ ws) zero = refl
word-map_zero (w ∷ ws) (suc i) = word-map_zero ws i

has_bit-clear : (bits : List ℕ) (b : ℕ) → has_bit (map (λ b. 0) bits) b ≡ false
unfolding has_bit
has_bit-clear bits b = rw (word-map_zero, zero-bit_and)

contains_rounds_first :
    (n i : ℕ) (at : ℕ → ℕ) (bits : List ℕ)
    → 0 < n
    → has_bit bits (at i) ≡ false
    → contains_rounds n i at bits ≡ false
unfolding contains_rounds
contains_rounds_first zero i at bits h e = absurd (omega arith)
contains_rounds_first (suc n) i at bits h e = rw e

length-map_zero : (bits : List ℕ) → length {A = ℕ} (map (λ b. 0) bits) ≡ length bits
length-map_zero [] = refl
length-map_zero (w ∷ ws) = ap suc (length-map_zero ws)

-- A valid filter, cleared, reports no key and stays valid.
pub maybe_contains-clear :
    (hash : Bytes → ℕ) (f : BloomFilter) (key : Bytes)
    → IsValid f
    → (maybe_contains hash (clear f) key ≡ false) × IsValid (clear f)
unfolding maybe_contains clear
maybe_contains-clear hash f key v = (
  contains_rounds_first f.k 0 _ _ v.some_rounds (has_bit-clear f.bits _),
  record {
    some_bits = v.some_bits;
    some_rounds = v.some_rounds;
    covered = rw length-map_zero v.covered;
  },
)
