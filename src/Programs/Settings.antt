-- ===== src/Programs/Settings.antt =====
-- src/gateway_main.cpp and src/admin_main.cpp: the command lines.
use shadow_se.Base.{
  ℕ, Bool, true, false, ◌||◌, Option, none, some, List, [], if◌then◌else◌, Bytes, codes, same_bytes,
}
use shadow_se.TorArgs.{Config, default_config, parse_tor_flag}
use shadow_se.Console.Arguments.{Launch, takes_value, parse_port, read_arguments}

-- The settings of `shadow-se-gateway`.
pub record GatewaySettings : Type 0 where
  pub cfg : Config
  pub port : ℕ
  pub load_path : Bytes
  pub password : Bytes

abbrev pub default_gateway : GatewaySettings
default_gateway = record { cfg = default_config; port = 8090; load_path = []; password = [] }

-- The settings of `shadow-se-admin`.
pub record AdminSettings : Type 0 where
  pub cfg : Config
  pub admin_port : ℕ
  pub web_port : ℕ
  pub token : Bytes
  pub load_path : Bytes
  pub password : Bytes
  pub onion_dir : Bytes
  pub serve_web : Bool

abbrev pub default_admin : AdminSettings
default_admin = record {
  cfg = default_config;
  admin_port = 8081;
  web_port = 8080;
  token = [];
  load_path = [];
  password = [];
  onion_dir = codes "onion";
  serve_web = true;
}

unfoldable pub is_gateway_value : Bytes → Bool
unfolding takes_value
is_gateway_value arg =
    same_bytes arg (codes "--port")
    || same_bytes arg (codes "--load")
    || same_bytes arg (codes "--password")
    || takes_value arg

unfoldable pub is_admin_value : Bytes → Bool
unfolding takes_value
is_admin_value arg =
    same_bytes arg (codes "--port")
    || same_bytes arg (codes "--web-port")
    || same_bytes arg (codes "--token")
    || same_bytes arg (codes "--onion-dir")
    || same_bytes arg (codes "--load")
    || same_bytes arg (codes "--password")
    || takes_value arg

module _ (to_string : ℕ → Bytes) where
  -- `--stub`, `--curl` and `--tor-pool`.
  unfoldable pub set_fetch_flag : Bytes → Config → Option Config
  set_fetch_flag arg cfg =
      if same_bytes arg (codes "--stub")
      then some (record cfg { use_stub_fetcher = true })
      else if same_bytes arg (codes "--curl")
      then some (record cfg { use_stub_fetcher = false })
      else if same_bytes arg (codes "--tor-pool")
      then some (parse_tor_flag to_string arg [] cfg).1
      else none

  unfoldable pub set_gateway_value : Bytes → Bytes → GatewaySettings → Option GatewaySettings
  unfolding parse_port
  set_gateway_value arg value s =
      if same_bytes arg (codes "--port")
      then elim (parse_port value) [ none ↦ none | some n ↦ some (record s { port = n }) ]
      else if same_bytes arg (codes "--load")
      then some (record s { load_path = value })
      else if same_bytes arg (codes "--password")
      then some (record s { password = value })
      else some (record s { cfg = (parse_tor_flag to_string arg value s.cfg).1 })

  unfoldable pub set_gateway_flag : Bytes → GatewaySettings → Option GatewaySettings
  unfolding set_fetch_flag
  set_gateway_flag arg s = elim (set_fetch_flag arg s.cfg) [
    | none ↦ none
    | some cfg ↦ some (record s { cfg = cfg })
  ]

  unfoldable pub parse_gateway_arguments : List Bytes → GatewaySettings → Launch GatewaySettings
  unfolding set_gateway_value set_gateway_flag is_gateway_value
  parse_gateway_arguments args s =
      read_arguments is_gateway_value set_gateway_value set_gateway_flag args s

  unfoldable pub set_admin_value : Bytes → Bytes → AdminSettings → Option AdminSettings
  unfolding parse_port
  set_admin_value arg value s =
      if same_bytes arg (codes "--port")
      then elim (parse_port value) [ none ↦ none | some n ↦ some (record s { admin_port = n }) ]
      else if same_bytes arg (codes "--web-port")
      then elim (parse_port value) [ none ↦ none | some n ↦ some (record s { web_port = n }) ]
      else if same_bytes arg (codes "--token")
      then some (record s { token = value })
      else if same_bytes arg (codes "--onion-dir")
      then some (record s { onion_dir = value })
      else if same_bytes arg (codes "--load")
      then some (record s { load_path = value })
      else if same_bytes arg (codes "--password")
      then some (record s { password = value })
      else some (record s { cfg = (parse_tor_flag to_string arg value s.cfg).1 })

  unfoldable pub set_admin_flag : Bytes → AdminSettings → Option AdminSettings
  unfolding set_fetch_flag
  set_admin_flag arg s =
      if same_bytes arg (codes "--no-web")
      then some (record s { serve_web = false })
      else elim (set_fetch_flag arg s.cfg) [
        | none ↦ none
        | some cfg ↦ some (record s { cfg = cfg })
      ]

  unfoldable pub parse_admin_arguments : List Bytes → AdminSettings → Launch AdminSettings
  unfolding set_admin_value set_admin_flag is_admin_value
  parse_admin_arguments args s = read_arguments is_admin_value set_admin_value set_admin_flag args s
