-- ===== src/TorPool.antt =====
-- src/tor_proxy_pool.cpp, with the circuit names of src/tor_proxy_manager.cpp. Times are numbers of
-- milliseconds of one clock, `now` an argument; the probe of an endpoint is the function `probe`,
-- which holds if the endpoint is up. Each member function holds the mutex throughout. `lastUsed`, the
-- statistics that no one reads and the floating-point backoff are left out.
pub mod Selection
pub mod Rotation
use shadow_se.Base.{
  ℕ, zero, suc, ◌+◌, ◌-◌, ◌/◌, ◌%◌, ◌^◌, Bool, true, false, not, ◌&&◌, ◌||◌, Option, none, some,
  List, [], ◌∷◌, ◌++◌, ltb, leb, ◌==◌, if◌then◌else◌, length, drop, Bytes, codes, same_bytes,
  has_sub, cut_sub, span_until,
}
use shadow_se.Bloom.{fnv1a}
use shadow_se.Robots.{ends_host}
use shadow_se.Admin.{hex_char}

pub record TorEndpoint : Type 0 where
  pub host : Bytes
  pub port : ℕ
  pub username : Bytes
  pub password : Bytes
  pub healthy : Bool
  pub failures : ℕ
  pub latency : ℕ
  pub last_probe : ℕ

unfoldable pub same_endpoint : TorEndpoint → TorEndpoint → Bool
same_endpoint e o = same_bytes e.host o.host && e.port == o.port

abbrev pub no_endpoint : TorEndpoint
no_endpoint = record {
  host = [];
  port = 0;
  username = [];
  password = [];
  healthy = true;
  failures = 0;
  latency = 0;
  last_probe = 0;
}

pub data CircuitScope : Type 0 where
  per_domain per_request no_isolation : CircuitScope

pub record PoolOptions : Type 0 where
  pub rotate_interval : ℕ
  pub isolation : CircuitScope
  pub onion_retries : ℕ
  pub failure_cooldown : ℕ

pub record Pool : Type 0 where
  pub eps : List TorEndpoint
  pub rr : ℕ
  pub last_rotate : ℕ
  pub onion_requests : ℕ

-- `isOnionUrl`
unfoldable pub is_onion_url : Bytes → Bool
is_onion_url url = has_sub (codes ".onion") url

-- The host part of a URL, as `circuitUsernameFor` cuts it out.
unfoldable pub circuit_host : Bytes → Bytes
circuit_host url = elim (cut_sub (codes "://") url) [
  | none ↦ (span_until ends_host url).0
  | some (scheme, rest) ↦ (span_until ends_host (drop 3 rest)).0
]

-- `%016llx`: sixteen digits, the highest first.
unfoldable pub hex_digits : ℕ → ℕ → Bytes
unfolding hex_char
hex_digits zero h = []
hex_digits (suc n) h = hex_digits n (h / 16) ++ hex_char (h % 16) ∷ []

unfoldable pub circuit_username : Bytes → CircuitScope → Bytes
circuit_username url no_isolation = []
circuit_username url per_domain = codes "s-" ++ hex_digits 16 (fnv1a (circuit_host url))
circuit_username url per_request = codes "s-" ++ hex_digits 16 (fnv1a url)

unfoldable pub has_endpoint : TorEndpoint → List TorEndpoint → Bool
has_endpoint ep [] = false
has_endpoint ep (e ∷ es) = same_endpoint e ep || has_endpoint ep es

unfoldable pub add_proxy : TorEndpoint → Pool → Pool
add_proxy ep p = if has_endpoint ep p.eps then p else record p { eps = p.eps ++ ep ∷ [] }

unfoldable pub without_endpoint : Bytes → ℕ → List TorEndpoint → List TorEndpoint
without_endpoint host port [] = []
without_endpoint host port (e ∷ es) =
    let rest = without_endpoint host port es in
    if same_bytes e.host host && e.port == port then rest else e ∷ rest

unfoldable pub remove_proxy : Bytes → ℕ → Pool → Pool
remove_proxy host port p = record p { eps = without_endpoint host port p.eps }

-- The first endpoint at the address is changed.
unfoldable pub update_first :
    (TorEndpoint → TorEndpoint) → Bytes → ℕ → List TorEndpoint → List TorEndpoint
update_first change host port [] = []
update_first change host port (e ∷ es) =
    let rest = update_first change host port es in
    if same_bytes e.host host && e.port == port then change e ∷ es else e ∷ rest

unfoldable pub report_success : Bytes → ℕ → ℕ → Pool → Pool
report_success host port latency p = record p {
  eps =
      update_first (λ e. record e { healthy = true; failures = 0; latency = latency }) host port
        p.eps;
}

unfoldable pub report_failure : ℕ → Bytes → ℕ → Pool → Pool
report_failure now host port p = record p {
  eps =
      update_first
        (λ e. record e { healthy = false; failures = (e.failures + 1) % 2 ^ 32; last_probe = now })
        host port p.eps;
}

unfoldable pub all_healthy : List TorEndpoint → List TorEndpoint
all_healthy [] = []
all_healthy (e ∷ es) = record e { healthy = true } ∷ all_healthy es

unfoldable pub is_due : PoolOptions → ℕ → Pool → Bool
is_due o now p = ltb 0 o.rotate_interval && leb o.rotate_interval (now - p.last_rotate)

-- The rotation at the start of a selection, if it is due.
unfoldable pub rotate : PoolOptions → ℕ → Pool → Pool
unfolding is_due
rotate o now p =
    if is_due o now p
    then record p {
      eps = all_healthy p.eps;
      rr = (p.rr + 1) % 2 ^ 64 % length p.eps;
      last_rotate = now;
    }
    else p

unfoldable pub usable : PoolOptions → ℕ → TorEndpoint → Bool
usable o now e = e.healthy || leb o.failure_cooldown (now - e.last_probe)

-- The indices of the usable endpoints, from `i` on.
unfoldable pub candidates : PoolOptions → ℕ → ℕ → List TorEndpoint → List ℕ
candidates o now i [] = []
candidates o now i (e ∷ es) =
    let rest = candidates o now (i + 1) es in if usable o now e then i ∷ rest else rest

-- `v[i]`; the source's indices are in range.
unfoldable pub nth : {A : Type 0} → ℕ → List A → Option A
nth i [] = none
nth zero (x ∷ xs) = some x
nth (suc i) (x ∷ xs) = nth i xs

unfoldable pub set_nth : ℕ → TorEndpoint → List TorEndpoint → List TorEndpoint
set_nth i e [] = []
set_nth zero e (x ∷ xs) = e ∷ xs
set_nth (suc i) e (x ∷ xs) = x ∷ set_nth i e xs

module _ (o : PoolOptions) (probe : Bytes → ℕ → Bool) (now : ℕ) (url : Bytes) where
  unfoldable pub named : TorEndpoint → TorEndpoint
  named e = record e {
    username = circuit_username url o.isolation;
    password = circuit_username url o.isolation;
  }

  -- The chosen endpoint, probed first if it is not healthy.
  unfoldable pub use_endpoint : ℕ → TorEndpoint → Pool → TorEndpoint × Pool
  use_endpoint pick e p =
      let probed = record e { healthy = probe e.host e.port; last_probe = now } in
      if e.healthy
      then (named e, p)
      else if probe e.host e.port
      then (named probed, record p { eps = set_nth pick probed p.eps })
      else (no_endpoint, record p { eps = set_nth pick probed p.eps })

  unfoldable pub choose_at : Option ℕ → Pool → TorEndpoint × Pool
  choose_at none p = (no_endpoint, p)
  choose_at (some pick) p = elim (nth pick p.eps) [
    | none ↦ (no_endpoint, p)
    | some e ↦ use_endpoint pick e p
  ]

  -- Round robin over the candidates; the cursor moves on.
  unfoldable pub choose : List ℕ → Pool → TorEndpoint × Pool
  choose [] p = (no_endpoint, p)
  choose (c ∷ cs) p =
      choose_at (nth (p.rr % length (c ∷ cs)) (c ∷ cs)) (record p { rr = (p.rr + 1) % 2 ^ 64 })

  unfoldable pub count_onion : Pool → Pool
  count_onion p =
      if is_onion_url url then record p { onion_requests = (p.onion_requests + 1) % 2 ^ 64 } else p

  unfoldable pub select_from : List TorEndpoint → Pool → TorEndpoint × Pool
  select_from [] p = (no_endpoint, p)
  select_from (e ∷ es) p =
      let p' = rotate o now (count_onion p) in choose (candidates o now 0 p'.eps) p'

  unfoldable pub select_proxy : Pool → TorEndpoint × Pool
  select_proxy p = select_from p.eps p

-- `probe`, after the result of the aggregate.
unfoldable pub probe_all : (Bytes → ℕ → Bool) → ℕ → List TorEndpoint → List TorEndpoint
probe_all probe now [] = []
probe_all probe now (e ∷ es) =
    record e { healthy = probe e.host e.port; last_probe = now } ∷ probe_all probe now es

unfoldable pub count_healthy : List TorEndpoint → ℕ
count_healthy [] = 0
count_healthy (e ∷ es) = (if e.healthy then 1 else 0) + count_healthy es

unfoldable pub max_retries : PoolOptions → Bytes → Pool → ℕ
max_retries o url p = if is_onion_url url then o.onion_retries else count_healthy p.eps - 1

-- `probeEndpoint`: every endpoint at the address takes the result.
unfoldable pub probe_endpoint :
    (Bytes → ℕ → Bool) → ℕ → TorEndpoint → List TorEndpoint → List TorEndpoint
probe_endpoint probe now ep [] = []
probe_endpoint probe now ep (e ∷ es) =
    let rest = probe_endpoint probe now ep es in
    if same_endpoint e ep
    then record e { healthy = probe ep.host ep.port; last_probe = now } ∷ rest
    else e ∷ rest
