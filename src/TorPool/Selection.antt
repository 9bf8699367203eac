-- ===== src/TorPool/Selection.antt =====
-- src/tor_proxy_pool.cpp: what `selectProxy` can return from the pool behind a rotation.
use shadow_se.Base.{
  subst, ℕ, zero, suc, ◌+◌, ◌%◌, ◌^◌, ◌≡◌, refl, sym, ap, ◌∙◌, arith, Bool, true, false, ◌||◌,
  Bool-cases, ◌⊎◌, inl, inr, Option, none, some, List, [], ◌∷◌, length, Bytes,
}
use shadow_se.TorPool.{
  TorEndpoint, no_endpoint, PoolOptions, Pool, usable, candidates, nth, named, use_endpoint,
  choose_at, choose, count_onion, rotate, select_from, circuit_username,
}

module _ (o : PoolOptions) (now : ℕ) where
  -- An index from `i` on that has a usable endpoint.
  abbrev pub Usable : ℕ → List TorEndpoint → ℕ → Type 0
  Usable i es c =
      (j : ℕ) × ((d : TorEndpoint) × ((c ≡ i + j)
          × ((nth j es ≡ some d) × (usable o now d ≡ true))))

  later :
      (i : ℕ) (e : TorEndpoint) (es : List TorEndpoint) (c : ℕ)
      → Usable (i + 1) es c
      → Usable i (e ∷ es) c
  unfolding nth
  later i e es c (j, (d, (at, (found, u)))) = (suc j, (d, (omega arith, (found, u))))

  -- The candidates behind an endpoint that is usable, and behind one that is not.
  pub candidates_yes :
      (i : ℕ) (e : TorEndpoint) (es : List TorEndpoint)
      → usable o now e ≡ true
      → candidates o now i (e ∷ es) ≡ i ∷ candidates o now (i + 1) es
  unfolding candidates
  candidates_yes i e es u = rw u refl

  candidates_no :
      (i : ℕ) (e : TorEndpoint) (es : List TorEndpoint)
      → usable o now e ≡ false
      → candidates o now i (e ∷ es) ≡ candidates o now (i + 1) es
  unfolding candidates
  candidates_no i e es u = rw u refl

  cons-Usable :
      (i k : ℕ) (e : TorEndpoint) (es : List TorEndpoint) (c : ℕ)
      → usable o now e ≡ true
      → ((j : ℕ) → nth j (candidates o now (i + 1) es) ≡ some c → Usable (i + 1) es c)
      → nth k (i ∷ candidates o now (i + 1) es) ≡ some c
      → Usable i (e ∷ es) c
  unfolding nth
  cons-Usable i zero e es c u rest h = (0, (e, (ground arith, (refl, u))))
  cons-Usable i (suc k) e es c u rest h = later i e es c (rest k h)

  pub candidates-Usable :
      (i k : ℕ) (es : List TorEndpoint) (c : ℕ)
      → nth k (candidates o now i es) ≡ some c
      → Usable i es c
  unfolding candidates nth
  candidates-Usable i k [] c h = absurd (ground arith)
  candidates-Usable i k (e ∷ es) c h = elim (Bool-cases (usable o now e)) [
    | inl u ↦
        cons-Usable i k e es c u (λ j. candidates-Usable (i + 1) j es c)
          (ap (nth k) (sym (candidates_yes i e es u)) ∙ h)
    | inr u ↦
        later i e es c
          (candidates-Usable (i + 1) k es c (ap (nth k) (sym (candidates_no i e es u)) ∙ h))
  ]

module _ (o : PoolOptions) (probe : Bytes → ℕ → Bool) (now : ℕ) (url : Bytes) where
  -- What may be chosen from a list: nothing, or an endpoint of it that is usable and either healthy or
  -- up when probed, under the circuit name of the URL.
  abbrev pub Chosen : List TorEndpoint → TorEndpoint → Type 0
  Chosen es r =
      (r ≡ no_endpoint)
      ⊎ ((d : TorEndpoint) × ((j : ℕ) × ((nth j es ≡ some d)
              × ((usable o now d ≡ true)
                  × ((d.healthy || probe d.host d.port ≡ true)
                      × ((r.host ≡ d.host)
                          × ((r.port ≡ d.port)
                              × (r.username ≡ circuit_username url o.isolation))))))))

  use_endpoint-Chosen :
      (pick : ℕ) (d : TorEndpoint) (p : Pool) (es : List TorEndpoint)
      → nth pick es ≡ some d
      → usable o now d ≡ true
      → Chosen es (use_endpoint o probe now url pick d p).0
  unfolding use_endpoint named
  use_endpoint-Chosen pick d p es at u =
      let probed = record d { healthy = probe d.host d.port; last_probe = now } in
      elim (Bool-cases d.healthy) [
        | inl h ↦
            let e : (use_endpoint o probe now url pick d p).0 ≡ named o probe now url d =
              rw h refl in
            subst (Chosen es) (sym e)
              (inr (d, (pick, (at, (u, (rw h refl, (refl, (refl, refl))))))))
        | inr h ↦ elim (Bool-cases (probe d.host d.port)) [
          | inl up ↦
              let e : (use_endpoint o probe now url pick d p).0 ≡ named o probe now url probed =
                rw (h, up) refl in
              subst (Chosen es) (sym e)
                (inr (d, (pick, (at, (u, (rw (h, up) refl, (refl, (refl, refl))))))))
          | inr down ↦
              let e : (use_endpoint o probe now url pick d p).0 ≡ no_endpoint = rw (h, down) refl in
              inl e
        ]
      ]

  choose_at-Chosen :
      (pick : ℕ) (p : Pool)
      → Usable o now 0 p.eps pick
      → Chosen p.eps (choose_at o probe now url (some pick) p).0
  unfolding choose_at
  choose_at-Chosen pick p (j, (d, (at, (found, u)))) =
      let here : nth pick p.eps ≡ some d = subst (λ k. nth k p.eps ≡ some d) (omega arith) found in
      let e : (choose_at o probe now url (some pick) p).0
          ≡ (use_endpoint o probe now url pick d p).0 =
        rw (choose_at, here) refl in
      subst (Chosen p.eps) (sym e) (use_endpoint-Chosen pick d p p.eps here u)

  choose_option-Chosen :
      (c : Option ℕ) (p : Pool)
      → ((k : ℕ) → c ≡ some k → Usable o now 0 p.eps k)
      → Chosen p.eps (choose_at o probe now url c p).0
  unfolding choose_at
  choose_option-Chosen none p h = inl refl
  choose_option-Chosen (some k) p h = choose_at-Chosen k p (h k refl)

  choose-Chosen :
      (cs : List ℕ) (p : Pool)
      → cs ≡ candidates o now 0 p.eps
      → Chosen p.eps (choose o probe now url cs p).0
  unfolding choose
  choose-Chosen [] p e = inl refl
  choose-Chosen (c ∷ cs) p e =
      let at = p.rr % length (c ∷ cs) in
      choose_option-Chosen (nth at (c ∷ cs)) (record p { rr = (p.rr + 1) % 2 ^ 64 })
        (λ k h. candidates-Usable o now 0 at p.eps k (ap (nth at) (sym e) ∙ h))

  pub select_from-Chosen :
      (es : List TorEndpoint) (p : Pool)
      → Chosen
          (rotate o now (count_onion o probe now url p)).eps
          (select_from o probe now url es p).0
  unfolding select_from
  select_from-Chosen [] p = inl refl
  select_from-Chosen (e ∷ es) p =
      let after = rotate o now (count_onion o probe now url p) in
      choose-Chosen (candidates o now 0 after.eps) after refl
