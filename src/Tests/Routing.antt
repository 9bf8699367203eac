-- ===== src/Tests/Routing.antt =====
-- src/tor_proxy_pool.cpp on a pool of two proxies, one of which has just failed.
use shadow_se.Base.{ℕ, Bool, false, ◌∷◌, [], Bytes, codes}
use shadow_se.TorPool.{
  TorEndpoint, Pool, PoolOptions, per_domain, no_endpoint, report_failure, select_proxy, is_due,
}
use shadow_se.TorPool.Rotation.{Selected, select_proxy-Selected}

abbrev first : TorEndpoint
first = record no_endpoint { host = codes "127.0.0.1"; port = 9050 }

abbrev pool : Pool
pool = record {
  eps = first ∷ record first { port = 9052 } ∷ [];
  rr = 0;
  last_rotate = 0;
  onion_requests = 0;
}

abbrev failed : Pool
failed = report_failure 7000 (codes "127.0.0.1") 9050 pool

abbrev options : PoolOptions
options = record {
  rotate_interval = 0;
  isolation = per_domain;
  onion_retries = 2;
  failure_cooldown = 5000;
}

abbrev down : Bytes → ℕ → Bool
down host port = false

abbrev site : Bytes
site = codes "http://b.onion/"

-- A rotation is due, and the endpoint that failed is given without a probe.
select_proxy-Selected_example :
    Selected
      (record options { rotate_interval = 600 })
      down
      8000
      site
      (is_due (record options { rotate_interval = 600 }) 8000 failed)
      failed
      (select_proxy (record options { rotate_interval = 600 }) down 8000 site failed).0
select_proxy-Selected_example =
    select_proxy-Selected (record options { rotate_interval = 600 }) down 8000 site failed
