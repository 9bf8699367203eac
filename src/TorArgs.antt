-- ===== src/TorArgs.antt =====
-- src/tor_proxy_manager.cpp: `parseProxyList` and `parseTorFlag`. `std::stol` reads white space, a sign and
-- digits, and throws without digits or out of range; a port out of range is skipped either way.
pub mod Ports
pub mod Pieces
pub mod Hosts
use mathlib.Core.List.{reverse}
use shadow_se.Base.{
  ℕ, zero, suc, ◌+◌, ◌-◌, ◌*◌, ◌%◌, ◌^◌, Bool, true, false, not, ◌&&◌, Option, none, some, List, [],
  ◌∷◌, ◌++◌, ltb, leb, within, ◌==◌, if◌then◌else◌, Bytes, codes, is_empty, same_bytes, skip_space,
}
use shadow_se.TorPool.{TorEndpoint, no_endpoint}
use shadow_se.Json.Scanner.{skip_ws, digits}
use shadow_se.Fetcher.{endpoint_key}

unfoldable pub prepend : ℕ → List Bytes → List Bytes
prepend c [] = (c ∷ []) ∷ []
prepend c (p ∷ ps) = (c ∷ p) ∷ ps

-- The pieces between the commas.
unfoldable pub split_commas : Bytes → List Bytes
unfolding prepend
split_commas [] = [] ∷ []
split_commas (c ∷ s) = let rest = split_commas s in if c == b',' then [] ∷ rest else prepend c rest

-- The lambda `trim`.
unfoldable pub trim_piece : Bytes → Bytes
trim_piece s = reverse (skip_ws (reverse (skip_ws s)))

-- `piece.rfind(':')` with both `substr`.
unfoldable pub cut_last : ℕ → Bytes → Option (Bytes × Bytes)
cut_last c [] = none
cut_last c (x ∷ s) = elim (cut_last c s) [
  | some (before, behind) ↦ some (x ∷ before, behind)
  | none ↦ if x == c then some ([], s) else none
]

unfoldable pub decimal_from : ℕ → Bytes → ℕ
decimal_from n [] = n
decimal_from n (c ∷ s) = decimal_from (n * 10 + (c - b'0')) s

-- The sign of a number (`true` for minus) and the text behind it.
unfoldable pub sign_of : Bytes → Bool × Bytes
sign_of [] = (false, [])
sign_of (c ∷ s) = if c == b'-' then (true, s) else if c == b'+' then (false, s) else (false, c ∷ s)

-- The sign and the magnitude that a text starts with.
unfoldable pub signed_number : Bytes → Option (Bool × ℕ)
unfolding sign_of decimal_from
signed_number s =
    let (negative, behind) = sign_of (skip_space s) in
    let ds = (digits behind).0 in if is_empty ds then none else some (negative, decimal_from 0 ds)

-- A port in range.
unfoldable pub port_of : Option (Bool × ℕ) → Option ℕ
port_of none = none
port_of (some (negative, n)) = if not negative && within 1 65535 n then some n else none

unfoldable pub endpoint_at : Bytes → Option ℕ → Option TorEndpoint
endpoint_at host none = none
endpoint_at host (some port) =
    some
      (record no_endpoint { host = if is_empty host then codes "127.0.0.1" else host; port = port })

unfoldable pub endpoint_from : Option (Bytes × Bytes) → Option TorEndpoint
unfolding signed_number port_of endpoint_at
endpoint_from none = none
endpoint_from (some (host, port)) = endpoint_at host (port_of (signed_number port))

unfoldable pub endpoint_of : Bytes → Option TorEndpoint
unfolding cut_last endpoint_from
endpoint_of piece = endpoint_from (cut_last b':' piece)

unfoldable pub add_piece : Option TorEndpoint → List TorEndpoint → List TorEndpoint
add_piece none eps = eps
add_piece (some ep) eps = ep ∷ eps

-- The pieces of one spec, then the endpoints behind.
unfoldable pub add_pieces : List Bytes → List TorEndpoint → List TorEndpoint
unfolding add_piece endpoint_of
add_pieces [] eps = eps
add_pieces (piece ∷ pieces) eps =
    let rest = add_pieces pieces eps in
    let trimmed = trim_piece piece in
    if is_empty trimmed then rest else add_piece (endpoint_of trimmed) rest

unfoldable pub parse_proxy_list : List Bytes → List TorEndpoint
unfolding add_pieces split_commas trim_piece
parse_proxy_list [] = []
parse_proxy_list (spec ∷ specs) = add_pieces (split_commas spec) (parse_proxy_list specs)

-- `Engine::Config`; an interval is a sign and a number of seconds.
pub record Config : Type 0 where
  pub use_stub_fetcher : Bool
  pub tor_host : Bytes
  pub tor_port : ℕ
  pub tor_proxies : List Bytes
  pub use_proxy_pool : Bool
  pub onion_retries : ℕ
  pub circuit_rotate : Bool × ℕ
  pub crawler_workers : ℕ
  pub crawler_max_pages : ℕ
  pub crawler_max_depth : ℕ

abbrev pub default_config : Config
default_config = record {
  use_stub_fetcher = true;
  tor_host = codes "127.0.0.1";
  tor_port = 9050;
  tor_proxies = [];
  use_proxy_pool = false;
  onion_retries = 0;
  circuit_rotate = (false, 0);
  crawler_workers = 2;
  crawler_max_pages = 64;
  crawler_max_depth = 2;
}

-- `std::stoul`: a negative number wraps; `0` when it throws.
unfoldable pub unsigned_or_zero : Option (Bool × ℕ) → ℕ
unsigned_or_zero none = 0
unsigned_or_zero (some (negative, n)) =
    if not (ltb n (2 ^ 64)) then 0 else if negative then (2 ^ 64 - n) % 2 ^ 64 else n

-- `std::stol`: zero when it throws.
unfoldable pub signed_or_zero : Option (Bool × ℕ) → Bool × ℕ
signed_or_zero none = (false, 0)
signed_or_zero (some (negative, n)) =
    if negative
    then (if leb n (2 ^ 63) then (true, n) else (false, 0))
    else if ltb n (2 ^ 63)
    then (false, n)
    else (false, 0)

module _ (to_string : ℕ → Bytes) where
  unfoldable pub keys_of : List TorEndpoint → List Bytes
  keys_of [] = []
  keys_of (ep ∷ eps) = endpoint_key to_string ep ∷ keys_of eps

  unfoldable pub set_proxies : List TorEndpoint → Config → Config
  unfolding keys_of
  set_proxies [] cfg = cfg
  set_proxies (ep ∷ eps) cfg = record cfg {
    tor_host = ep.host;
    tor_port = ep.port;
    tor_proxies = keys_of eps;
  }

  -- Whether the argument was one of the flags, and the configuration.
  unfoldable pub parse_tor_flag : Bytes → Bytes → Config → Bool × Config
  unfolding set_proxies unsigned_or_zero signed_or_zero
  parse_tor_flag arg value cfg =
      if same_bytes arg (codes "--tor-pool")
      then (true, record cfg { use_proxy_pool = true })
      else if same_bytes arg (codes "--tor-proxy")
      then (true, set_proxies (parse_proxy_list (value ∷ [])) cfg)
      else if same_bytes arg (codes "--onion-retries")
      then (
        true,
        if is_empty value
            then cfg
            else record cfg { onion_retries = unsigned_or_zero (signed_number value) },
      )
      else if same_bytes arg (codes "--circuit-rotate")
      then (
        true,
        if is_empty value
            then cfg
            else record cfg { circuit_rotate = signed_or_zero (signed_number value) },
      )
      else (false, cfg)
