-- ===== src/Admin/Log.antt =====
-- src/admin.cpp: the activity log is a window on the events.
use shadow_se.Base.{
  ℕ, zero, suc, ◌+◌, ◌-◌, ◌<◌, ◌≡◌, refl, sym, ap, ◌∙◌, arith, Bool-cases, inl, inr, List, [], ◌∷◌,
  ◌++◌, append_assoc, append-nil, ltb, length, drop, length-append, length-drop, drop-append_le,
}
use shadow_se.Admin.{ActivityEvent, ActivityLog, new_log, pop_front_while, add}

module _ {A : Type 0} where
  drop-nil : (n : ℕ) → drop {A = A} n [] ≡ []
  drop-nil zero = refl
  drop-nil (suc n) = refl

  drop-drop : (a n : ℕ) (xs : List A) → drop a (drop n xs) ≡ drop (n + a) xs
  drop-drop a zero xs = ap (λ k. drop k xs) (omega arith)
  drop-drop a (suc n) [] = drop-nil a ∙ sym (drop-nil (suc n + a))
  drop-drop a (suc n) (x ∷ xs) =
      let e : suc n + a ≡ suc (n + a) = omega arith in rw e (drop-drop a n xs)

  -- The last `cap` elements.
  abbrev pub latest : ℕ → List A → List A
  latest cap xs = drop (length xs - cap) xs

  latest-step :
      (cap : ℕ) (xs ys : List A) → latest cap (latest cap xs ++ ys) ≡ latest cap (xs ++ ys)
  latest-step cap xs ys =
      ap (latest cap) (sym (drop-append_le (length xs - cap) xs ys (omega arith)))
      ∙ drop-drop _ (length xs - cap) (xs ++ ys)
      ∙ (ap (λ k. drop k (xs ++ ys))
          (omega (arith, length-drop (length xs - cap) (xs ++ ys), length-append xs ys)))

module _ {Time : Type 0} where
  pop_front_while-latest :
      (cap : ℕ) (es : List (ActivityEvent Time)) → pop_front_while cap es ≡ latest cap es
  unfolding pop_front_while
  pop_front_while-latest cap [] = sym (drop-nil _)
  pop_front_while-latest cap (e ∷ es) = elim (Bool-cases (ltb cap (length (e ∷ es)))) [
    | inl more ↦ rw more (
        pop_front_while-latest cap es
        ∙ ap (λ k. drop k (e ∷ es)) {x = suc (length es - cap)} (ground arith))
    | inr few ↦ rw few (ap (λ k. drop k (e ∷ es)) {x = 0} (ground arith))
  ]

  -- The log after a list of events.
  unfoldable pub add_events : List (ActivityEvent Time) → ActivityLog Time → ActivityLog Time
  add_events [] log = log
  add_events (e ∷ es) log = add_events es (add e log)

  cap-add_events :
      (es : List (ActivityEvent Time)) (log : ActivityLog Time) → (add_events es log).cap ≡ log.cap
  unfolding add_events add
  cap-add_events [] log = refl
  cap-add_events (e ∷ es) log = cap-add_events es (add e log)

  add-latest :
      (e : ActivityEvent Time) (before : List (ActivityEvent Time)) (log : ActivityLog Time)
      → log.events ≡ latest log.cap before
      → (add e log).events ≡ latest log.cap (before ++ e ∷ [])
  unfolding add
  add-latest e before log h =
      pop_front_while-latest log.cap (log.events ++ e ∷ [])
      ∙ ap (λ es. latest log.cap (es ++ e ∷ [])) h
      ∙ latest-step log.cap before (e ∷ [])

  events-add_events :
      (es before : List (ActivityEvent Time)) (log : ActivityLog Time)
      → log.events ≡ latest log.cap before
      → (add_events es log).events ≡ latest log.cap (before ++ es)
  unfolding add_events
  events-add_events [] before log h = h ∙ ap (latest log.cap) (sym (append-nil before))
  events-add_events (e ∷ es) before log h =
      events-add_events es (before ++ e ∷ []) (add e log) (unfold add in add-latest e before log h)
      ∙ unfold add in ap (latest log.cap) (append_assoc before (e ∷ []) es)

  -- After any events the log holds the last of them, oldest first, as many as the capacity, which is
  -- at least one.
  pub add_events-latest :
      (capacity : ℕ) (es : List (ActivityEvent Time))
      → ((add_events es (new_log capacity)).events ≡ latest (new_log {Time = Time} capacity).cap es)
        × (0 < (new_log {Time = Time} capacity).cap)
  unfolding new_log
  add_events-latest capacity es =
      (events-add_events es [] (new_log capacity) (sym (drop-nil _)), ground arith)
