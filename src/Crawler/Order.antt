-- ===== src/Crawler/Order.antt =====
-- The priority queue: the item that is popped is the first by priority and then by arrival.
use shadow_se.Base.{
  ℕ, ◌+◌, true, false, List, [], ◌∷◌, ◌++◌, if◌then◌else◌, length, Bytes, same_bytes, ◌≡◌, refl,
  arith, All, Bool-cases, inl, inr,
}
use shadow_se.Crawler.{Item, before, pop_from, member}

before_trans : (a b c : Item) → before b a ≡ false → before c b ≡ false → before c a ≡ false
unfolding before
before_trans a b c h k = ground arith

before_asym : (a b : Item) → before b a ≡ true → before a b ≡ false
unfolding before
before_asym a b h = ground arith

before_irrefl : (a : Item) → before a a ≡ false
unfolding before
before_irrefl a = ground arith

-- The winner and the loser of one comparison.
abbrev winner : Item → Item → Item
winner a b = if before b a then b else a

abbrev loser : Item → Item → Item
loser a b = if before b a then a else b

winner_first :
    (a b : Item) → (before a (winner a b) ≡ false) × (before (loser a b) (winner a b) ≡ false)
winner_first a b = elim (Bool-cases (before b a)) [
  | inl h ↦ rw h (before_asym a b h, before_asym a b h)
  | inr h ↦ rw h (before_irrefl a, h)
]

top_first : (a : Item) (items : List Item) → before a (pop_from a items).0 ≡ false
unfolding pop_from
top_first a [] = before_irrefl a
top_first a (b ∷ items) = before_trans _ _ a (top_first (winner a b) items) (winner_first a b).0

-- No item that stays in the queue comes before the one that is popped.
pub pop_from_first :
    (a : Item) (items : List Item)
    → All (λ i. before i (pop_from a items).0 ≡ false) (pop_from a items).1
unfolding pop_from
pop_from_first a [] = tt
pop_from_first a (b ∷ items) = (
  before_trans _ _ (loser a b) (top_first (winner a b) items) (winner_first a b).1,
  pop_from_first (winner a b) items,
)

-- How many items have the URL; how often a URL stands in a list.
unfoldable pub count_items : Bytes → List Item → ℕ
count_items u [] = 0
count_items u (i ∷ items) = (if same_bytes i.url u then 1 else 0) + count_items u items

unfoldable pub count_urls : Bytes → List Bytes → ℕ
count_urls u [] = 0
count_urls u (x ∷ xs) = (if same_bytes x u then 1 else 0) + count_urls u xs

pub count_items-pop_from :
    (u : Bytes) (a : Item) (items : List Item)
    → count_items u ((pop_from a items).0 ∷ (pop_from a items).1) ≡ count_items u (a ∷ items)
unfolding pop_from count_items
count_items-pop_from u a [] = refl
count_items-pop_from u a (b ∷ items) = ground (arith, count_items-pop_from u (winner a b) items)

pub length-pop_from : (a : Item) (items : List Item) → length (pop_from a items).1 ≡ length items
unfolding pop_from
length-pop_from a [] = refl
length-pop_from a (b ∷ items) = omega (arith, length-pop_from (winner a b) items)

pub count_items-append :
    (u : Bytes) (xs ys : List Item) → count_items u (xs ++ ys) ≡ count_items u xs + count_items u ys
unfolding count_items
count_items-append u [] ys = omega arith
count_items-append u (x ∷ xs) ys = omega (arith, count_items-append u xs ys)

pub count_urls_absent : (u : Bytes) (xs : List Bytes) → member u xs ≡ false → count_urls u xs ≡ 0
unfolding count_urls member
count_urls_absent u [] h = refl
count_urls_absent u (x ∷ xs) h = ground (arith, count_urls_absent u xs)
