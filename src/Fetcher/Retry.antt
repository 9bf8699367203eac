-- ===== src/Fetcher/Retry.antt =====
-- src/fetcher.cpp: the retries of the fetcher, and that an onion address is never asked for without
-- a proxy.
use shadow_se.Base.{
  ℕ, zero, suc, ◌+◌, ◌%◌, ◌^◌, ◌≤◌, ◌≡◌, ◌≢◌, refl, inl, inr, Bool, true, false, Bool-cases, ◌&&◌,
  Option, none, some, [], ◌∷◌, if◌then◌else◌, length, length-append, Bytes, is_empty, All,
  All-append, arith,
}
use shadow_se.TorPool.{TorEndpoint, is_onion_url}
use shadow_se.Crawler.Page.{FetchResult}
use shadow_se.Fetcher.{
  Transfer, Manager, Request, Session, proxy_of, settle, request_for, attempt_once, no_result, join,
  attempts_from, fetch,
}

-- The request goes through a proxy.
abbrev pub IsProxied : Request → Type 0
IsProxied r = r.proxy ≢ []

is_empty-proxied : (s : Bytes) → is_empty s ≡ false → s ≢ []
is_empty-proxied [] h = absurd (cc)
is_empty-proxied (c ∷ s) h = λ e. cc

module _ (to_string : ℕ → Bytes) {S : Type 0} (manager : Manager S)
    (perform : ℕ → Request → Option Transfer) (latency : ℕ → ℕ) where
  either-IsProxied :
      (test : Bool) (x y : Session S × Bool)
      → (test ≡ true → All IsProxied x.0.requests)
      → (test ≡ false → All IsProxied y.0.requests)
      → All IsProxied (if test then x else y).0.requests
  either-IsProxied true x y h k = h refl
  either-IsProxied false x y h k = k refl

  request_for-IsProxied :
      (url : Bytes) (ep : TorEndpoint)
      → is_empty (proxy_of to_string ep) ≡ false
      → IsProxied (request_for to_string manager perform latency url ep)
  unfolding request_for
  request_for-IsProxied url ep h = is_empty-proxied (proxy_of to_string ep) h

  settle-requests :
      (P : Request → Type 0) (is_onion : Bool) (attempt : ℕ) (ep : TorEndpoint) (request : Request)
      (t : Option Transfer) (result : FetchResult) (s : S)
      → P request
      → All P
          (settle to_string manager perform latency is_onion attempt ep request t result
            s).0.requests
  unfolding settle
  settle-requests P is_onion attempt ep request none result s h = tt
  settle-requests P is_onion attempt ep request (some t) result s h = (h, tt)

  settle-length :
      (is_onion : Bool) (attempt : ℕ) (ep : TorEndpoint) (request : Request) (t : Option Transfer)
      (result : FetchResult) (s : S)
      → length
          (settle to_string manager perform latency is_onion attempt ep request t result
            s).0.requests
        ≤ 1
  unfolding settle
  settle-length is_onion attempt ep request none result s = omega arith
  settle-length is_onion attempt ep request (some t) result s = omega arith

  attempt_once-IsProxied :
      (attempt : ℕ) (url : Bytes) (result : FetchResult) (s : S)
      → is_onion_url url ≡ true
      → All IsProxied
          (attempt_once to_string manager perform latency attempt url result s).0.requests
  unfolding attempt_once
  attempt_once-IsProxied attempt url result s h =
      let ep = (manager.select url s).0 in
      let request = request_for to_string manager perform latency url ep in
      either-IsProxied (is_onion_url url && is_empty (proxy_of to_string ep)) _ _ (λ e. tt)
        (λ e.
          settle-requests IsProxied (is_onion_url url) attempt ep request (perform attempt request)
            result (manager.select url s).1 (request_for-IsProxied url ep (ground (arith, h, e))))

  attempt_once-length :
      (attempt : ℕ) (url : Bytes) (result : FetchResult) (s : S)
      → length (attempt_once to_string manager perform latency attempt url result s).0.requests ≤ 1
  unfolding attempt_once
  attempt_once-length attempt url result s =
      let ep = (manager.select url s).0 in
      let request = request_for to_string manager perform latency url ep in
      elim (Bool-cases (is_onion_url url && is_empty (proxy_of to_string ep))) [
        | inl e ↦ rw e (omega arith)
        | inr e ↦ rw e (
            settle-length (is_onion_url url) attempt ep request (perform attempt request) result
              (manager.select url s).1)
      ]

  attempts_from-IsProxied :
      (left attempt : ℕ) (url : Bytes) (result : FetchResult) (s : S)
      → is_onion_url url ≡ true
      → All IsProxied
          (attempts_from to_string manager perform latency left attempt url result s).requests
  unfolding attempts_from join
  attempts_from-IsProxied zero attempt url result s h = tt
  attempts_from-IsProxied (suc left) attempt url result s h =
      let once = attempt_once to_string manager perform latency attempt url result s in
      let first = attempt_once-IsProxied attempt url result s h in
      elim (Bool-cases once.1) [
        | inl e ↦ rw e (
            All-append IsProxied once.0.requests _ first
              (attempts_from-IsProxied left (attempt + 1) url once.0.result once.0.manager h))
        | inr e ↦ rw e first
      ]

  attempts_from-length :
      (left attempt : ℕ) (url : Bytes) (result : FetchResult) (s : S)
      → length (attempts_from to_string manager perform latency left attempt url result s).requests
        ≤ left
  unfolding attempts_from join
  attempts_from-length zero attempt url result s = omega arith
  attempts_from-length (suc left) attempt url result s =
      let once = attempt_once to_string manager perform latency attempt url result s in
      let rest =
        attempts_from to_string manager perform latency left (attempt + 1) url once.0.result
          once.0.manager in
      elim (Bool-cases once.1) [
        | inl e ↦ rw e (
            omega (
              arith,
              attempt_once-length attempt url result s,
              attempts_from-length left (attempt + 1) url once.0.result once.0.manager,
              length-append once.0.requests rest.requests,
            ))
        | inr e ↦ rw e (omega (arith, attempt_once-length attempt url result s))
      ]

  -- An onion address is never asked for directly: whatever the manager selects and however the
  -- transfers end, every transfer of the fetch of such an address goes through a proxy.
  pub fetch-IsProxied :
      (url : Bytes) (s : S)
      → is_onion_url url ≡ true
      → All IsProxied (fetch to_string manager perform latency url s).requests
  unfolding fetch
  fetch-IsProxied url s h =
      attempts_from-IsProxied ((1 + manager.max_retries url s) % 2 ^ 64) 0 url no_result s h

  -- A fetch makes at most one transfer and the retries that the manager grants for the address.
  pub fetch-length :
      (url : Bytes) (s : S)
      → length (fetch to_string manager perform latency url s).requests
        ≤ suc (manager.max_retries url s)
  unfolding fetch
  fetch-length url s =
      let tries = 1 + manager.max_retries url s in
      omega (arith, attempts_from-length (tries % 2 ^ 64) 0 url no_result s)
