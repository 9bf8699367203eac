-- ===== src/Robots/Verdict.antt =====
-- The loop of `allowed` against the rule of the standard: the longest matching path decides, and
-- Allow wins a tie.
use Prim.Native.Nat.{max}
use shadow_se.Base.{
  ℕ, ◌<◌, Bool, true, false, not, ◌&&◌, List, [], ◌∷◌, ltb, leb, if◌then◌else◌, length, Bytes,
  starts_with, ◌≡◌, refl, arith, All, Bool-cases, inl, inr,
}
use shadow_se.Robots.{Rule, Best, weigh, weigh_all, best_start, verdict}

-- The length of a rule's path if the rule is of the kind and matches, else 0.
unfoldable pub weight : Bool → Bytes → Rule → ℕ
weight kind path r =
    if starts_with r.path path && (if kind then r.allow else not r.allow) then length r.path else 0

-- The length of the longest path that matches among the rules of one kind; 0 if there is none.
unfoldable pub longest : Bool → Bytes → List Rule → ℕ
unfolding weight
longest kind path [] = 0
longest kind path (r ∷ rs) = max (weight kind path r) (longest kind path rs)

abbrev pub HasPath : Rule → Type 0
HasPath r = 0 < length r.path

-- What `b` says of the longest matches `a` of Allow and `d` of Disallow met so far.
abbrev Weighs : ℕ → ℕ → Best → Type 0
Weighs a d b = (b.len ≡ max a d) × (b.allow ≡ leb d a) × (b.matched ≡ ltb 0 (max a d))

max_assoc : (a b c : ℕ) → max a (max b c) ≡ max (max a b) c
max_assoc a b c = omega arith

weigh-Weighs :
    (path : Bytes) (r : Rule) (b : Best) (a d : ℕ)
    → HasPath r
    → Weighs a d b
    → Weighs (max a (weight true path r)) (max d (weight false path r)) (weigh path r b)
unfolding weigh weight
weigh-Weighs path r b a d h w = elim (Bool-cases (starts_with r.path path)) [
  | inl match ↦ elim (Bool-cases r.allow) [
    | inl allow ↦ (ground arith, ground arith, ground arith)
    | inr deny ↦ (ground arith, ground arith, ground arith)
  ]
  | inr other ↦ (ground arith, ground arith, ground arith)
]

weigh_all-Weighs :
    (path : Bytes) (rs : List Rule) (b : Best) (a d : ℕ)
    → All HasPath rs
    → Weighs a d b
    → Weighs (max a (longest true path rs)) (max d (longest false path rs)) (weigh_all path rs b)
unfolding weigh_all longest
weigh_all-Weighs path [] b a d h w = ground arith
weigh_all-Weighs path (r ∷ rs) b a d h w =
    let step = weigh-Weighs path r b a d h.0 w in
    rw (max_assoc a, max_assoc d) (weigh_all-Weighs path rs (weigh path r b) _ _ h.1 step)

-- A path is allowed exactly if its longest matching Disallow, if any, is no longer than its longest
-- matching Allow. The rules have non-empty paths.
pub verdict-longest :
    (path : Bytes) (rs : List Rule)
    → All HasPath rs
    → verdict path rs ≡ leb (longest false path rs) (longest true path rs)
unfolding verdict
verdict-longest path [] h = unfold longest in refl
verdict-longest path (r ∷ rs) h =
    let w = weigh_all-Weighs path (r ∷ rs) best_start 0 0 h (ground arith) in ground arith
