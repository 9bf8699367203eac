-- ===== src/Console/Arguments.antt =====
-- src/main.cpp and src/web_main.cpp: the command lines. `std::stoi` throws without digits or out of range, and
-- nothing catches it.
use shadow_se.Base.{
  ℕ, ◌-◌, ◌%◌, ◌^◌, Bool, true, false, ◌||◌, Option, none, some, List, [], ◌∷◌, if◌then◌else◌, leb,
  ltb, Bytes, codes, is_empty, same_bytes,
}
use shadow_se.TorArgs.{Config, default_config, parse_tor_flag, signed_number}

pub data Launch (Settings : Type 0) : Type 0 where
  run : Settings → Launch Settings
  show_usage crashed : Launch Settings
  unknown_option : Bytes → Launch Settings

unfoldable pub takes_value : Bytes → Bool
takes_value arg =
    same_bytes arg (codes "--tor-proxy")
    || same_bytes arg (codes "--onion-retries")
    || same_bytes arg (codes "--circuit-rotate")

unfoldable pub is_help : Bytes → Bool
is_help arg = same_bytes arg (codes "--help") || same_bytes arg (codes "-h")

-- `std::stoi` as a sign and a magnitude.
unfoldable pub int_of : Option (Bool × ℕ) → Option (Bool × ℕ)
int_of none = none
int_of (some (negative, n)) =
    if negative
    then (if leb n (2 ^ 31) then some (true, n) else none)
    else if ltb n (2 ^ 31)
    then some (false, n)
    else none

-- `static_cast<std::uint16_t>`
unfoldable pub cast_u16 : Bool × ℕ → ℕ
cast_u16 (true, n) = (2 ^ 16 - n % 2 ^ 16) % 2 ^ 16
cast_u16 (false, n) = n % 2 ^ 16

unfoldable pub parse_port : Bytes → Option ℕ
unfolding int_of cast_u16
parse_port v = elim (int_of (signed_number v)) [ none ↦ none | some n ↦ some (cast_u16 n) ]

-- The loop of the programs with servers: a value is taken whatever it is, and is empty behind the last
-- argument; `none` if a port is no number, or if there is no such flag.
module _ {S : Type 0} (takes : Bytes → Bool) (set_value : Bytes → Bytes → S → Option S)
    (set_flag : Bytes → S → Option S) where
  unfoldable pub end_arguments : Bytes → Option S → Launch S
  unfolding is_help
  end_arguments arg none = if is_help arg then show_usage else unknown_option arg
  end_arguments arg (some s) = run s

  unfoldable pub read_arguments : List Bytes → S → Launch S
  unfolding end_arguments
  read_arguments [] s = run s
  read_arguments (arg ∷ []) s =
      if takes arg
      then elim (set_value arg [] s) [ none ↦ crashed | some s' ↦ run s' ]
      else end_arguments arg (set_flag arg s)
  read_arguments (arg ∷ value ∷ args) s =
      let on_value : Launch S = elim (set_value arg value s) [
        | none ↦ crashed
        | some s' ↦ read_arguments args s'
      ] in
      let on_flag : Launch S = elim (set_flag arg s) [
        | none ↦ end_arguments arg none
        | some s' ↦ read_arguments (value ∷ args) s'
      ] in
      if takes arg then on_value else on_flag

-- The settings of `shadow-se-web`.
pub record WebSettings : Type 0 where
  pub cfg : Config
  pub port : ℕ
  pub load_path : Bytes
  pub password : Bytes
  pub title : Bytes
  pub seed : Bool

abbrev pub default_web : WebSettings
default_web = record {
  cfg = default_config;
  port = 8080;
  load_path = [];
  password = [];
  title = codes "Shadow SE";
  seed = true;
}

unfoldable pub with_port : Option ℕ → WebSettings → Option WebSettings
with_port none s = none
with_port (some port) s = some (record s { port = port })

module _ (to_string : ℕ → Bytes) where
  -- The loop of `shadow-se`: an empty value is not skipped.
  unfoldable pub parse_arguments : List Bytes → Config → Launch Config
  unfolding takes_value is_help
  parse_arguments [] cfg = run cfg
  parse_arguments (arg ∷ []) cfg =
      if same_bytes arg (codes "--stub")
      then run (record cfg { use_stub_fetcher = true })
      else if same_bytes arg (codes "--curl")
      then run (record cfg { use_stub_fetcher = false })
      else if takes_value arg || same_bytes arg (codes "--tor-pool")
      then run (parse_tor_flag to_string arg [] cfg).1
      else if is_help arg
      then show_usage
      else unknown_option arg
  parse_arguments (arg ∷ value ∷ args) cfg =
      let on_stub = parse_arguments (value ∷ args) (record cfg { use_stub_fetcher = true }) in
      let on_curl = parse_arguments (value ∷ args) (record cfg { use_stub_fetcher = false }) in
      let on_pool = parse_arguments (value ∷ args) (parse_tor_flag to_string arg [] cfg).1 in
      let on_value = parse_arguments args (parse_tor_flag to_string arg value cfg).1 in
      if same_bytes arg (codes "--stub")
      then on_stub
      else if same_bytes arg (codes "--curl")
      then on_curl
      else if takes_value arg
      then (if is_empty value then on_pool else on_value)
      else if same_bytes arg (codes "--tor-pool")
      then on_pool
      else if is_help arg
      then show_usage
      else unknown_option arg

  -- A flag of `shadow-se-web` that takes a value; `none` if the port is no number.
  unfoldable pub set_web_value : Bytes → Bytes → WebSettings → Option WebSettings
  unfolding parse_port with_port
  set_web_value arg value s =
      if same_bytes arg (codes "--port")
      then with_port (parse_port value) s
      else if same_bytes arg (codes "--load")
      then some (record s { load_path = value })
      else if same_bytes arg (codes "--password")
      then some (record s { password = value })
      else if same_bytes arg (codes "--title")
      then some (record s { title = value })
      else some (record s { cfg = (parse_tor_flag to_string arg value s.cfg).1 })

  unfoldable pub is_web_value : Bytes → Bool
  unfolding takes_value
  is_web_value arg =
      same_bytes arg (codes "--port")
      || same_bytes arg (codes "--load")
      || same_bytes arg (codes "--password")
      || same_bytes arg (codes "--title")
      || takes_value arg

  -- A flag without a value; `none` if there is no such flag.
  unfoldable pub set_web_flag : Bytes → WebSettings → Option WebSettings
  set_web_flag arg s =
      if same_bytes arg (codes "--stub")
      then some (record s { cfg = record s.cfg { use_stub_fetcher = true } })
      else if same_bytes arg (codes "--curl")
      then some (record s { cfg = record s.cfg { use_stub_fetcher = false } })
      else if same_bytes arg (codes "--tor-pool")
      then some (record s { cfg = (parse_tor_flag to_string arg [] s.cfg).1 })
      else if same_bytes arg (codes "--no-seed")
      then some (record s { seed = false })
      else none

  unfoldable pub parse_web_arguments : List Bytes → WebSettings → Launch WebSettings
  unfolding set_web_value set_web_flag is_web_value
  parse_web_arguments args s = read_arguments is_web_value set_web_value set_web_flag args s
