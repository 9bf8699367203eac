-- ===== src/Base/Map.antt =====
-- `std::unordered_map` as an association list with one entry for each key, in order of insertion.
use mathlib.Core.Path.{◌≡◌, refl, ◌∙◌}
use mathlib.Core.Logic.{◌↔◌, inl, inr}
use mathlib.Core.Bool.{Bool, true}
use mathlib.Core.Option.{Option, none, some}
use mathlib.Core.List.{List, [], ◌∷◌}
use Prim.Native.Nat.{ℕ}
use native.Mathlib.Omega.{arith}
use shadow_se.Base.Tests.{◌==◌, ==_iff, if◌then◌else◌, Bool-cases}
use shadow_se.Base.Text.{Bytes, same_bytes, same_bytes_iff}

-- Keys with a test of equality.
pub record Key {ℓ} (K : Type ℓ) : Type ℓ where
  pub same : K → K → Bool
  pub same_iff : (a b : K) → (same a b ≡ true) ↔ (a ≡ b)

abbrev same_number : ℕ → ℕ → Bool
same_number a b = a == b

instance abbrev pub nat_key : Key ℕ
nat_key = record { same = same_number; same_iff = ==_iff }

instance abbrev pub bytes_key : Key Bytes
bytes_key = record { same = same_bytes; same_iff = same_bytes_iff }

abbrev pub Map : Type 0 → Type 0 → Type 0
Map K V = List (K × V)

pub same_refl {ℓ} : {K : Type ℓ} ⦃key : Key K⦄ (k : K) → key.same k k ≡ true
same_refl ⦃key⦄ k = (key.same_iff k k).1 refl

module _ {K V : Type 0} ⦃key : Key K⦄ where
  -- m.find(k)
  unfoldable pub find : K → Map K V → Option V
  find k [] = none
  find k ((j, v) ∷ m) = if key.same j k then some v else find k m

  -- m[k] = v
  unfoldable pub put : K → V → Map K V → Map K V
  put k v [] = (k, v) ∷ []
  put k v ((j, w) ∷ m) = if key.same j k then (j, v) ∷ m else (j, w) ∷ put k v m

  -- m.erase(k)
  unfoldable pub erase : K → Map K V → Map K V
  erase k [] = []
  erase k ((j, v) ∷ m) = let rest = erase k m in if key.same j k then rest else (j, v) ∷ rest

  pub find-put :
      (j k : K) (v : V) (m : Map K V)
      → find j (put k v m) ≡ (if key.same k j then some v else find j m)
  unfolding find put
  find-put j k v [] = refl
  find-put j k v ((i, w) ∷ m) =
      ground (arith, find-put j k v m, key.same_iff i k, key.same_iff i j, key.same_iff k j)

  pub find-erase :
      (j k : K) (m : Map K V) → find j (erase k m) ≡ (if key.same k j then none else find j m)
  unfolding find erase
  find-erase j k [] = ground arith
  find-erase j k ((i, w) ∷ m) =
      ground (arith, find-erase j k m, key.same_iff i k, key.same_iff i j, key.same_iff k j)

  -- No key has two entries.
  abbrev pub IsUnique : Map K V → Type 0
  IsUnique [] = Unit
  IsUnique ((k, v) ∷ m) = (find k m ≡ none) × IsUnique m

  pub put-IsUnique : (k : K) (v : V) (m : Map K V) → IsUnique m → IsUnique (put k v m)
  unfolding put find
  put-IsUnique k v [] h = (refl, tt)
  put-IsUnique k v ((j, w) ∷ m) h = elim (Bool-cases (key.same j k)) [
    | inl same ↦ rw same h
    | inr other ↦ rw other (
      rw find-put (ground (arith, h.0, key.same_iff j k, key.same_iff k j)),
      put-IsUnique k v m h.1,
    )
  ]

  pub erase-IsUnique : (k : K) (m : Map K V) → IsUnique m → IsUnique (erase k m)
  unfolding erase
  erase-IsUnique k [] h = tt
  erase-IsUnique k ((j, w) ∷ m) h = elim (Bool-cases (key.same j k)) [
    | inl same ↦ rw same (erase-IsUnique k m h.1)
    | inr other ↦
        let absent : find j (erase k m) ≡ none = find-erase j k m ∙ ground (arith, h.0) in
        rw other (absent, erase-IsUnique k m h.1)
  ]
