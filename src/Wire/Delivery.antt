-- ===== src/Wire/Delivery.antt =====
-- src/web_server.cpp and src/admin.cpp: what arrives of a response.
use shadow_se.Base.{
  ℕ, zero, suc, ◌+◌, ◌≤◌, ◌≡◌, ◌⊎◌, inl, inr, append_assoc, refl, ap, ◌∙◌, Option, none, some, [],
  ◌∷◌, ◌++◌, length, take, drop, take-append-drop, length-drop, Bytes, arith,
}
use shadow_se.Wire.{send_from, send_all, send_both}

Option-cases : (o : Option ℕ) → (o ≡ none) ⊎ ((m : ℕ) × (o ≡ some m))
Option-cases none = inl refl
Option-cases (some m) = inr (m, refl)

begins_with : (m : ℕ) (s out rest : Bytes) → out ++ rest ≡ drop m s → (take m s ++ out) ++ rest ≡ s
begins_with m s out rest e = rw (append_assoc (take m s) out rest) (rw e (take-append-drop m s))

module _ (send : ℕ → ℕ → Option ℕ) where
  -- A call takes at least one of the bytes that it is offered, and no more than there are.
  abbrev pub IsProgressing : Type 0
  IsProgressing = (k n : ℕ) → 1 ≤ n → (m : ℕ) × (send k n ≡ some m) × (1 ≤ m) × (m ≤ n)

  send_from-whole :
      (fuel k : ℕ) (s : Bytes) → IsProgressing → length s ≤ fuel → (send_from send fuel k s).0 ≡ s
  unfolding send_from
  send_from-whole fuel k [] go room = refl
  send_from-whole zero k (c ∷ s) go room = absurd (omega arith)
  send_from-whole (suc fuel) k (c ∷ s) go room =
      let (m, e, low, high) = go k (length (c ∷ s)) (omega arith) in
      rw (e, send_from)
        (ap (λ t. take m (c ∷ s) ++ t)
            (send_from-whole fuel (k + 1) (drop m (c ∷ s)) go
              (omega (arith, length-drop m (c ∷ s))))
          ∙ take-append-drop m (c ∷ s))

  -- Whatever the calls answer, a beginning of the text goes out.
  pub send_from-begins :
      (fuel k : ℕ) (s : Bytes) → (rest : Bytes) × ((send_from send fuel k s).0 ++ rest ≡ s)
  unfolding send_from
  send_from-begins fuel k [] = ([], refl)
  send_from-begins zero k (c ∷ s) = (c ∷ s, refl)
  send_from-begins (suc fuel) k (c ∷ s) = elim (Option-cases (send k (length (c ∷ s)))) [
    | inl e ↦ (c ∷ s, rw (e, send_from) refl)
    | inr (m, e) ↦
        let (rest, h) = send_from-begins fuel (k + 1) (drop m (c ∷ s)) in
        (
          rest,
          rw (e, send_from)
              (begins_with m (c ∷ s) (send_from send fuel (k + 1) (drop m (c ∷ s))).0 rest h),
        )
  ]

  -- If every call of `send` takes at least one byte of those that it is offered, the header and the body
  -- arrive whole, in however small pieces they go out.
  pub send_both-delivered :
      (k : ℕ) (head body : Bytes) → IsProgressing → send_both send k head body ≡ head ++ body
  unfolding send_both send_all
  send_both-delivered k head body go = rw (send_from-whole (length head) k head go (omega arith)) (
      rw
        (send_from-whole (length body) (send_from send (length head) k head).1 body go
          (omega arith))
        refl)
