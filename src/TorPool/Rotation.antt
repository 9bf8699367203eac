-- ===== src/TorPool/Rotation.antt =====
-- src/tor_proxy_pool.cpp: what `selectProxy` can return, with and without a rotation.
use shadow_se.Base.{
  subst, ℕ, zero, suc, ◌+◌, ◌%◌, ◌^◌, ◌<◌, if◌then◌else◌, ◌≡◌, refl, sym, ap, ◌∙◌, arith, Bool,
  true, false, Bool-cases, ◌⊎◌, inl, inr, some, List, [], ◌∷◌, length, Bytes,
}
use shadow_se.TorPool.{
  TorEndpoint, no_endpoint, PoolOptions, Pool, usable, candidates, nth, named, use_endpoint,
  choose_at, choose, count_onion, is_onion_url, is_due, all_healthy, rotate, select_from,
  select_proxy, circuit_username,
}
use shadow_se.TorPool.Selection.{
  Usable, Chosen, candidates_yes, candidates-Usable, select_from-Chosen,
}

nth-all_healthy :
    (j : ℕ) (ds : List TorEndpoint) (d : TorEndpoint)
    → nth j (all_healthy ds) ≡ some d
    → (e : TorEndpoint) × ((nth j ds ≡ some e) × (record e { healthy = true } ≡ d))
unfolding nth all_healthy
nth-all_healthy j [] d h = absurd (cc (h))
nth-all_healthy zero (e ∷ ds) d h = (e, (refl, cc (h)))
nth-all_healthy (suc j) (e ∷ ds) d h = nth-all_healthy j ds d h

nth-within : (i : ℕ) (cs : List ℕ) → i < length cs → (c : ℕ) × (nth i cs ≡ some c)
unfolding nth
nth-within i [] h = absurd (omega arith)
nth-within zero (c ∷ cs) h = (c, refl)
nth-within (suc i) (c ∷ cs) h = nth-within i cs (omega arith)

module _ (o : PoolOptions) (probe : Bytes → ℕ → Bool) (now : ℕ) (url : Bytes) where
  -- An endpoint of the list, under the circuit name of the URL.
  abbrev pub Named : List TorEndpoint → TorEndpoint → Type 0
  Named es r =
      (d : TorEndpoint) × ((j : ℕ) × ((nth j es ≡ some d)
          × ((r.host ≡ d.host)
              × ((r.port ≡ d.port) × (r.username ≡ circuit_username url o.isolation)))))

  -- What a selection gives, when a rotation is due and when it is not.
  abbrev pub Selected : Bool → Pool → TorEndpoint → Type 0
  Selected true p r = ((p.eps ≡ []) × (r ≡ no_endpoint)) ⊎ Named p.eps r
  Selected false p r = Chosen o probe now url p.eps r

  count_onion-same :
      (p : Pool)
      → ((count_onion o probe now url p).eps ≡ p.eps)
        × (is_due o now (count_onion o probe now url p) ≡ is_due o now p)
  unfolding count_onion is_due
  count_onion-same p = elim (Bool-cases (is_onion_url url)) [
    | inl h ↦ rw h (refl, refl)
    | inr h ↦ rw h (refl, refl)
  ]

  rotate-eps :
      (p : Pool) → (rotate o now p).eps ≡ (if is_due o now p then all_healthy p.eps else p.eps)
  unfolding rotate
  rotate-eps p = elim (Bool-cases (is_due o now p)) [ inl h ↦ rw h refl | inr h ↦ rw h refl ]

  rotated_eps :
      (p : Pool)
      → (rotate o now (count_onion o probe now url p)).eps
        ≡ (if is_due o now p then all_healthy p.eps else p.eps)
  rotated_eps p =
      let (same, due) = count_onion-same p in
      rotate-eps (count_onion o probe now url p) ∙ rw (due, same) refl

  use_endpoint-Named :
      (pick j : ℕ) (d e : TorEndpoint) (q : Pool) (ds : List TorEndpoint)
      → nth j ds ≡ some e
      → record e { healthy = true } ≡ d
      → Named ds (use_endpoint o probe now url pick d q).0
  unfolding use_endpoint named
  use_endpoint-Named pick j d e q ds at same =
      subst (λ (x : TorEndpoint). Named ds (use_endpoint o probe now url pick x q).0) same
        (e, (j, (at, (refl, (refl, refl)))))

  choose_at-Named :
      (pick : ℕ) (q : Pool) (ds : List TorEndpoint)
      → q.eps ≡ all_healthy ds
      → Usable o now 0 q.eps pick
      → Named ds (choose_at o probe now url (some pick) q).0
  unfolding choose_at
  choose_at-Named pick q ds healthy (j, (d, (at, (found, u)))) =
      let here : nth pick q.eps ≡ some d = subst (λ k. nth k q.eps ≡ some d) (omega arith) found in
      let (e, (there, same)) = nth-all_healthy j ds d (ap (nth j) (sym healthy) ∙ found) in
      rw (choose_at, here) (use_endpoint-Named pick j d e q ds there same)

  choose-Named :
      (c : ℕ) (cs : List ℕ) (q : Pool) (ds : List TorEndpoint)
      → q.eps ≡ all_healthy ds
      → c ∷ cs ≡ candidates o now 0 q.eps
      → Named ds (choose o probe now url (c ∷ cs) q).0
  unfolding choose
  choose-Named c cs q ds healthy e =
      let i = q.rr % length (c ∷ cs) in
      let (pick, at) = nth-within i (c ∷ cs) (omega arith) in
      let moved = record q { rr = (q.rr + 1) % 2 ^ 64 } in
      let u = candidates-Usable o now 0 i q.eps pick (ap (nth i) (sym e) ∙ at) in
      rw at (choose_at-Named pick moved ds healthy u)

  first_candidate :
      (d : TorEndpoint) (ds : List TorEndpoint)
      → candidates o now 0 (all_healthy (d ∷ ds)) ≡ 0 ∷ candidates o now 1 (all_healthy ds)
  unfolding all_healthy usable
  first_candidate d ds = candidates_yes o now 0 (record d { healthy = true }) (all_healthy ds) refl

  choose_rotated :
      (d : TorEndpoint) (ds : List TorEndpoint) (q : Pool)
      → q.eps ≡ all_healthy (d ∷ ds)
      → Named (d ∷ ds) (choose o probe now url (candidates o now 0 q.eps) q).0
  choose_rotated d ds q healthy =
      let all : candidates o now 0 q.eps ≡ 0 ∷ candidates o now 1 (all_healthy ds) =
        ap (candidates o now 0) healthy ∙ first_candidate d ds in
      subst (λ cs. Named (d ∷ ds) (choose o probe now url cs q).0) (sym all)
        (choose-Named 0 (candidates o now 1 (all_healthy ds)) q (d ∷ ds) healthy (sym all))

  select_from-Named :
      (es : List TorEndpoint) (p : Pool)
      → es ≡ p.eps
      → is_due o now p ≡ true
      → ((p.eps ≡ []) × ((select_from o probe now url es p).0 ≡ no_endpoint))
        ⊎ Named p.eps (select_from o probe now url es p).0
  unfolding select_from
  select_from-Named [] p e due = inl (sym e, refl)
  select_from-Named (d ∷ ds) p e due =
      let q = rotate o now (count_onion o probe now url p) in
      let healthy : q.eps ≡ all_healthy (d ∷ ds) =
        rotated_eps p ∙ rw due (ap all_healthy (sym e)) in
      inr (
        subst (λ xs. Named xs (choose o probe now url (candidates o now 0 q.eps) q).0) e
          (choose_rotated d ds q healthy))

  select_proxy-split :
      (due : Bool) (p : Pool)
      → is_due o now p ≡ due
      → Selected due p (select_proxy o probe now url p).0
  unfolding select_proxy
  select_proxy-split true p e = select_from-Named p.eps p refl e
  select_proxy-split false p e =
      let kept : (rotate o now (count_onion o probe now url p)).eps ≡ p.eps =
        rotated_eps p ∙ rw e refl in
      subst (λ es. Chosen o probe now url es (select_proxy o probe now url p).0) kept
        (select_from-Chosen o probe now url p.eps p)

  -- While no rotation is due, a selection gives no endpoint, or one of the pool which is healthy or whose
  -- cooldown is over, and which is healthy or answered a probe. When a rotation is due, it gives an endpoint of
  -- the pool, if there is one, whatever its health, its cooldown and the probe say. In both cases the endpoint
  -- comes with the circuit name of the URL.
  pub select_proxy-Selected :
      (p : Pool) → Selected (is_due o now p) p (select_proxy o probe now url p).0
  select_proxy-Selected p = select_proxy-split (is_due o now p) p refl
