-- ===== src/Ranking/Order.antt =====
-- src/bm25.cpp: the order of the results.
use shadow_se.Base.{
  ltb, ℕ, zero, suc, ◌≤◌, ◌≡◌, inl, inr, true, false, Bool-cases, ◌||◌, List, [], ◌∷◌, ◌==◌, length,
  length-take-le, take, Bytes, arith,
}
use shadow_se.Index.{InvertedIndex, document_count}
use shadow_se.Ranking.{
  Reals, Scored, query_terms, average_doc_length, add_terms, results_of, before, insert_result,
  sort_results, rank_terms, rank,
}

module _ {D : Type 0} (reals : Reals D) where
  -- The first of the results does not come before `x`.
  abbrev Follows : Scored D → List (Scored D) → Type 0
  Follows x [] = Unit
  Follows x (y ∷ ys) = before reals y x ≡ false

  -- No result comes before the one that it follows.
  abbrev IsRanked : List (Scored D) → Type 0
  IsRanked [] = Unit
  IsRanked (x ∷ xs) = Follows x xs × IsRanked xs

  -- The scores go down, and on equal scores the ids do not: the second result neither has a greater
  -- score than the first nor, with the same score, a smaller id.
  abbrev pub IsDescending : List (Scored D) → Type 0
  IsDescending [] = Unit
  IsDescending (x ∷ []) = Unit
  IsDescending (x ∷ y ∷ ys) =
      (reals.greater y.score x.score ≡ false)
      × (reals.same y.score x.score ≡ true → ltb y.doc.id x.doc.id ≡ false)
      × IsDescending (y ∷ ys)

  -- Comparisons of numbers: equality is symmetric, no number is greater than one that is greater than
  -- it, and none is greater than one that is the same.
  abbrev pub IsOrder : Type 0
  IsOrder =
      ((x y : D) → reals.same x y ≡ reals.same y x)
      × ((x y : D) → reals.greater x y ≡ true → reals.greater y x ≡ false)
      × ((x y : D) → reals.same x y ≡ true → reals.greater x y ≡ false)

  pair-IsDescending :
      (x y : Scored D)
      → IsOrder
      → before reals y x ≡ false
      → (reals.greater y.score x.score ≡ false)
        × (reals.same y.score x.score ≡ true → ltb y.doc.id x.doc.id ≡ false)
  unfolding before
  pair-IsDescending x y order h =
      (ground (arith, h, order.2 y.score x.score), λ e. ground (arith, h, e))

  IsRanked-IsDescending : (xs : List (Scored D)) → IsOrder → IsRanked xs → IsDescending xs
  IsRanked-IsDescending [] order v = tt
  IsRanked-IsDescending (x ∷ []) order v = tt
  IsRanked-IsDescending (x ∷ y ∷ ys) order v =
      let pair = pair-IsDescending x y order v.0 in
      (pair.0, pair.1, IsRanked-IsDescending (y ∷ ys) order v.1)

  before_asym : (x y : Scored D) → IsOrder → before reals x y ≡ true → before reals y x ≡ false
  unfolding before
  before_asym x y order h = ground (arith, h, order.0 x.score y.score, order.1 x.score y.score)

  insert_result-Follows :
      (x y : Scored D) (ys : List (Scored D))
      → before reals x y ≡ false
      → Follows y ys
      → Follows y (insert_result reals x ys)
  unfolding insert_result
  insert_result-Follows x y [] h k = h
  insert_result-Follows x y (z ∷ ys) h k = elim (Bool-cases (before reals x z)) [
    | inl e ↦ rw e h
    | inr e ↦ rw e k
  ]

  insert_result-IsRanked :
      (x : Scored D) (ys : List (Scored D))
      → IsOrder
      → IsRanked ys
      → IsRanked (insert_result reals x ys)
  unfolding insert_result
  insert_result-IsRanked x [] order v = (tt, tt)
  insert_result-IsRanked x (y ∷ ys) order v = elim (Bool-cases (before reals x y)) [
    | inl e ↦ rw e (before_asym x y order e, v)
    | inr e ↦ rw e (insert_result-Follows x y ys e v.0, insert_result-IsRanked x ys order v.1)
  ]

  sort_results-IsRanked : (xs : List (Scored D)) → IsOrder → IsRanked (sort_results reals xs)
  unfolding sort_results
  sort_results-IsRanked [] order = tt
  sort_results-IsRanked (x ∷ xs) order =
      insert_result-IsRanked x (sort_results reals xs) order (sort_results-IsRanked xs order)

  take-IsRanked : (n : ℕ) (xs : List (Scored D)) → IsRanked xs → IsRanked (take n xs)
  take-IsRanked zero xs v = tt
  take-IsRanked (suc n) [] v = tt
  take-IsRanked (suc zero) (x ∷ xs) v = (tt, tt)
  take-IsRanked (suc (suc n)) (x ∷ []) v = (tt, tt)
  take-IsRanked (suc (suc n)) (x ∷ y ∷ xs) v = (v.0, take-IsRanked (suc n) (y ∷ xs) v.1)

  rank_terms-IsRanked :
      (k1 b : D) (t : InvertedIndex) (terms : List Bytes) (limit : ℕ)
      → IsOrder
      → IsRanked (rank_terms reals k1 b t terms limit)
        × (length (rank_terms reals k1 b t terms limit) ≤ limit)
  unfolding rank_terms
  rank_terms-IsRanked k1 b t terms limit order =
      let total = reals.of_nat (document_count t) in
      let avgdl = average_doc_length reals t in
      let results =
        sort_results reals (results_of reals t (add_terms reals k1 b total avgdl t terms [])) in
      elim (Bool-cases (document_count t == 0 || reals.at_most avgdl (reals.of_nat 0))) [
        | inl e ↦ rw e (tt, omega arith)
        | inr e ↦ rw e (
          take-IsRanked limit results (
              sort_results-IsRanked
                (results_of reals t (add_terms reals k1 b total avgdl t terms [])) order),
          length-take-le limit results,
        )
      ]

  -- If equality of scores is symmetric, and greater is asymmetric and excludes equality, the results of a
  -- query are at most `limit`, their scores go down, and on equal scores their ids go up.
  pub rank-IsDescending :
      (k1 b : D) (t : InvertedIndex) (tokens : List Bytes) (limit : ℕ)
      → IsOrder
      → IsDescending (rank reals k1 b t tokens limit)
        × (length (rank reals k1 b t tokens limit) ≤ limit)
  unfolding rank
  rank-IsDescending k1 b t [] limit order = (tt, omega arith)
  rank-IsDescending k1 b t (token ∷ tokens) limit order =
      let terms = query_terms (token ∷ tokens) in
      let ranked = rank_terms-IsRanked k1 b t terms limit order in
      (IsRanked-IsDescending (rank_terms reals k1 b t terms limit) order ranked.0, ranked.1)
