-- ===== src/Fetcher/Managers.antt =====
-- src/tor_proxy_manager.cpp: `DefaultTorProxyManager`, and both managers as what the fetcher uses. The
-- probe of an endpoint is the function `probe`, which holds if the endpoint is up.
use shadow_se.Base.{
  ℕ, zero, suc, ◌+◌, ◌%◌, ◌^◌, ◌≡◌, refl, Bool, true, false, not, ◌&&◌, ◌||◌, Option, List, [], ◌∷◌,
  ◌==◌, if◌then◌else◌, Bytes, codes, is_empty, same_bytes, arith,
}
use shadow_se.TorPool
use shadow_se.TorPool.{TorEndpoint, no_endpoint, is_onion_url, PoolOptions, Pool, same_endpoint}
use shadow_se.Crawler.Page.{FetchResult}
use shadow_se.Fetcher.{
  Transfer, Manager, Request, no_result, proxy_of, attempt_once, attempts_from, fetch,
}

-- `up_` is the last result of the probe.
pub record Single : Type 0 where
  pub ep : TorEndpoint
  pub up : Bool

-- The constructor, from the configured proxies.
unfoldable pub make_single : List TorEndpoint → Single
make_single [] = record { ep = no_endpoint; up = false }
make_single (ep ∷ eps) = record { ep = ep; up = false }

unfoldable pub add_proxy : TorEndpoint → Single → Single
add_proxy ep m = record { ep = ep; up = false }

unfoldable pub is_at : Bytes → ℕ → TorEndpoint → Bool
is_at host port e = same_bytes e.host host && e.port == port

unfoldable pub remove_proxy : Bytes → ℕ → Single → Single
unfolding is_at
remove_proxy host port m =
    if is_at host port m.ep then record { ep = no_endpoint; up = false } else m

unfoldable pub proxies : Single → List TorEndpoint
proxies m = if is_empty m.ep.host then [] else m.ep ∷ []

unfoldable pub select_proxy : Single → TorEndpoint
select_proxy m = if is_empty m.ep.host || m.ep.port == 0 || not m.up then no_endpoint else m.ep

unfoldable pub report_success : Bytes → ℕ → ℕ → Single → Single
unfolding is_at
report_success host port latency m =
    if is_at host port m.ep
    then record m { ep = record m.ep { failures = 0; latency = latency } }
    else m

unfoldable pub report_failure : Bytes → ℕ → Single → Single
unfolding is_at
report_failure host port m =
    if is_at host port m.ep
    then record m { ep = record m.ep { failures = (m.ep.failures + 1) % 2 ^ 32 } }
    else m

unfoldable pub probe_single : (Bytes → ℕ → Bool) → ℕ → Single → Single
probe_single probe now m = record {
  ep = record m.ep { last_probe = now };
  up = not (is_empty m.ep.host || m.ep.port == 0) && probe m.ep.host m.ep.port;
}

unfoldable pub probe_endpoint : (Bytes → ℕ → Bool) → TorEndpoint → Single → Single
probe_endpoint probe ep m =
    if same_endpoint m.ep ep then record m { up = probe ep.host ep.port } else m

unfoldable pub max_retries : ℕ → Bytes → ℕ
max_retries onion_retries url = if is_onion_url url then onion_retries else 0

-- `stats`: the numbers of proxies and of healthy ones, and the latency.
unfoldable pub stats : Single → ℕ × ℕ × ℕ
stats m = (
  if is_empty m.ep.host then 0 else 1,
  if is_empty m.ep.host || not m.up then 0 else 1,
  m.ep.latency,
)

abbrev pub single_manager : ℕ → Manager Single
single_manager onion_retries = record {
  select = λ url m. (select_proxy m, m);
  report_success = report_success;
  report_failure = report_failure;
  max_retries = λ url m. max_retries onion_retries url;
}

abbrev pub pool_manager : PoolOptions → (Bytes → ℕ → Bool) → ℕ → Manager Pool
pool_manager o probe now = record {
  select = λ url p. TorPool.select_proxy o probe now url p;
  report_success = λ host port latency p. TorPool.report_success host port latency p;
  report_failure = λ host port p. TorPool.report_failure now host port p;
  max_retries = λ url p. TorPool.max_retries o url p;
}

-- A proxy that was last found down is not used, and neither is one that was removed.
pub select_proxy-down : (m : Single) → m.up ≡ false → select_proxy m ≡ no_endpoint
unfolding select_proxy
select_proxy-down m h = ground (arith, h)

module _ (to_string : ℕ → Bytes) (perform : ℕ → Request → Option Transfer) (latency : ℕ → ℕ)
    (retries : ℕ) where
  attempt_once-down :
      (attempt : ℕ) (url : Bytes) (result : FetchResult) (m : Single)
      → is_onion_url url ≡ true
      → m.up ≡ false
      → attempt_once to_string (single_manager retries) perform latency attempt url result m ≡ (
        record {
          result = record result {
            error =
                codes "onion target requires Tor; no healthy SOCKS5 proxy available (run 'status')";
          };
          manager = m;
          requests = [];
        },
        false,
      )
  unfolding attempt_once proxy_of
  attempt_once-down attempt url result m h k = rw (h, select_proxy-down m k) refl

  attempts_from-down :
      (left : ℕ) (url : Bytes) (m : Single)
      → is_onion_url url ≡ true
      → m.up ≡ false
      → let s =
          attempts_from to_string (single_manager retries) perform latency left 0 url no_result m in
        (s.result.ok ≡ false) × (s.requests ≡ []) × (s.manager ≡ m)
  unfolding attempts_from
  attempts_from-down zero url m h k = (refl, refl, refl)
  attempts_from-down (suc left) url m h k =
      rw (attempt_once-down 0 url no_result m h k) (refl, refl, refl)

  -- With the single proxy down, the fetch of an onion address fails, makes no transfer at all and
  -- leaves the manager as it is, however many retries are configured.
  pub fetch-down :
      (url : Bytes) (m : Single)
      → is_onion_url url ≡ true
      → m.up ≡ false
      → ((fetch to_string (single_manager retries) perform latency url m).result.ok ≡ false)
        × ((fetch to_string (single_manager retries) perform latency url m).requests ≡ [])
        × ((fetch to_string (single_manager retries) perform latency url m).manager ≡ m)
  unfolding fetch
  fetch-down url m h k = attempts_from-down ((1 + max_retries retries url) % 2 ^ 64) url m h k
