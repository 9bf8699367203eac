-- ===== src/Engine/Startup.antt =====
-- src/engine.cpp: the constructor, with the proxy manager that it makes and probes. `probe` is the probe of
-- an endpoint, `now` the clock, and `has_curl` tells whether libcurl was compiled in. The Bloom filter is
-- the crawler's; its size is floating-point arithmetic.
pub mod Endpoints
use shadow_se.Base.{
  ℕ, ◌==◌, Bool, true, false, not, ◌&&◌, ◌||◌, List, [], ◌∷◌, if◌then◌else◌, Bytes, codes, is_empty,
}
use shadow_se.Bloom.{BloomFilter}
use shadow_se.Index
use shadow_se.Crawler.{Options}
use shadow_se.Crawler
use shadow_se.TorPool.{TorEndpoint, no_endpoint, Pool, probe_all}
use shadow_se.TorProxy.{TorStatus, up, down, unknown, TorProbeResult}
use shadow_se.TorArgs.{Config, parse_proxy_list}
use shadow_se.Fetcher.Managers.{Single, make_single, probe_single}
use shadow_se.Engine.{Engine}

unfoldable pub is_up : TorStatus → Bool
is_up up = true
is_up down = false
is_up unknown = false

module _ (probe : Bytes → ℕ → TorProbeResult) where
  -- The loop of `aggregateProbe`: the first endpoint that is up ends it.
  unfoldable pub first_up : List TorEndpoint → TorStatus × Bytes
  first_up [] = (down, codes "all configured Tor proxies unreachable")
  first_up (ep ∷ eps) =
      let rest = first_up eps in
      let result = probe ep.host ep.port in
      if is_up result.status then (up, result.detail) else rest

  unfoldable pub aggregate_probe : List TorEndpoint → TorStatus × Bytes
  unfolding first_up
  aggregate_probe [] = (unknown, codes "no Tor proxy configured")
  aggregate_probe (ep ∷ eps) = first_up (ep ∷ eps)

  unfoldable pub reaches : Bytes → ℕ → Bool
  unfolding is_up
  reaches host port = is_up (probe host port).status

pub data TorManager : Type 0 where
  single : Single → TorManager
  pooled : Pool → TorManager

-- The configured endpoint, then the others.
unfoldable pub endpoints_of : Config → List TorEndpoint
endpoints_of cfg =
    record no_endpoint { host = cfg.tor_host; port = cfg.tor_port }
    ∷ parse_proxy_list cfg.tor_proxies

unfoldable pub make_pool : List TorEndpoint → ℕ → Pool
make_pool eps now = record { eps = eps; rr = 0; last_rotate = now; onion_requests = 0 }

unfoldable pub make_manager : Config → ℕ → TorManager
unfolding make_pool
make_manager cfg now =
    if cfg.use_proxy_pool
    then pooled (make_pool (endpoints_of cfg) now)
    else single (make_single (endpoints_of cfg))

unfoldable pub fetcher_name_for : Bool → Config → Bytes
fetcher_name_for has_curl cfg =
    if has_curl && not cfg.use_stub_fetcher then codes "libcurl" else codes "stub"

unfoldable pub crawler_options : Config → Options
crawler_options cfg = record {
  worker_count = cfg.crawler_workers;
  max_pages = cfg.crawler_max_pages;
  max_depth = cfg.crawler_max_depth;
}

module _ (probe : Bytes → ℕ → TorProbeResult) (now : ℕ) where
  -- The virtual `probe`.
  unfoldable pub probe_manager : TorManager → TorStatus × TorManager
  unfolding aggregate_probe reaches
  probe_manager (single m) = (
    if is_empty m.ep.host || m.ep.port == 0 then unknown else (probe m.ep.host m.ep.port).status,
    single (probe_single (reaches probe) now m),
  )
  probe_manager (pooled p) = (
    (aggregate_probe probe p.eps).0,
    pooled (record p { eps = probe_all (reaches probe) now p.eps }),
  )

  unfoldable pub start_engine : Bool → BloomFilter → Config → Engine × TorManager
  unfolding probe_manager make_manager fetcher_name_for
  start_engine has_curl bloom cfg =
      let (tor, manager) = probe_manager (make_manager cfg now) in
      (
        record {
          index = Index.empty;
          crawler = Crawler.make bloom;
          fetcher_name = fetcher_name_for has_curl cfg;
          last_tor = tor;
        },
        manager,
      )

  -- `probeTor`
  unfoldable pub probe_engine : Engine × TorManager → TorStatus × (Engine × TorManager)
  unfolding probe_manager
  probe_engine (e, manager) =
      let (tor, manager') = probe_manager manager in (tor, (record e { last_tor = tor }, manager'))
