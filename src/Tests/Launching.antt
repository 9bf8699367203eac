-- ===== src/Tests/Launching.antt =====
-- src/web_main.cpp, src/gateway_main.cpp and src/admin_main.cpp on concrete command lines.
use shadow_se.Base.{
  ℕ, ◌-◌, ◌≡◌, refl, arith, true, false, Option, none, some, [], ◌∷◌, ◌==◌, if◌then◌else◌, length,
  Bytes, codes, same_bytes,
}
use shadow_se.Document.{Document, clear_web}
use shadow_se.Bloom
use shadow_se.TorArgs.{default_config, decimal_from}
use shadow_se.TorProxy.{down, TorProbeResult}
use shadow_se.Json.Scanner.{not_digit}
use shadow_se.Engine.Startup.Endpoints.{IsPrinted}
use shadow_se.Web.Connections.{Calls}
use shadow_se.Console.Arguments.{run, WebSettings, default_web}
use shadow_se.Programs.{run_web, run_gateway, run_admin}
use shadow_se.Programs.Settings.{
  AdminSettings, GatewaySettings, default_admin, default_gateway, parse_admin_arguments,
}
use shadow_se.Programs.CommandLines.{admin_arguments, parse_admin_arguments-admin_arguments}
use shadow_se.Programs.Served.{IsServed, vault_of, programs-IsServed}
use shadow_se.Vault.{Outcome, done, failed, save_encrypted}
use shadow_se.Base.{◌++◌, take}

abbrev show_port : ℕ → Bytes
show_port n = if n == 8081 then codes "8081" else codes "9090"

-- The token looks like a flag.
abbrev panel : AdminSettings
panel = record default_admin {
  cfg = record default_config { use_stub_fetcher = false };
  web_port = 9090;
  token = codes "--no-web";
  load_path = codes "a.snap";
  password = codes "pw";
  serve_web = false;
}

admin_port-IsPrinted : IsPrinted (show_port 8081) 8081
unfolding decimal_from not_digit
admin_port-IsPrinted = ((refl, (refl, (refl, (refl, tt)))), refl, refl)

web_port-IsPrinted : IsPrinted (show_port 9090) 9090
unfolding decimal_from not_digit
web_port-IsPrinted = ((refl, (refl, (refl, (refl, tt)))), refl, refl)

parse_admin_arguments-admin_arguments_example :
    parse_admin_arguments show_port (admin_arguments show_port panel) default_admin ≡ run panel
parse_admin_arguments-admin_arguments_example =
    parse_admin_arguments-admin_arguments show_port panel admin_port-IsPrinted web_port-IsPrinted
      (omega arith) (omega arith)

abbrev page : Document
page = record {
  id = 0;
  url = codes "http://a.org/";
  title = codes "Tor";
  snippet = [];
  content = [];
  source = clear_web;
  depth = 0;
}

-- A cipher for the test: a tag of sixteen zeros behind the text.
abbrev key_of : Bytes → Bytes → Option Bytes
key_of password salt = if same_bytes password (codes "pw") then some (1 ∷ []) else none

abbrev seal : Bytes → Bytes → Bytes → Bytes
seal key nonce m = m ++ codes "0000000000000000"

abbrev unseal : Bytes → Bytes → Bytes → Option Bytes
unseal key nonce c = some (take (length c - 16) c)

abbrev file_of : Outcome Bytes → Option Bytes
file_of (done file) = some file
file_of (failed f) = none

-- One snapshot, with one document.
abbrev files : Bytes → Option Bytes
files path = file_of (
    save_encrypted key_of seal unseal (codes "pw") (codes "0000000000000000")
      (codes "000000000000000000000000") (page ∷ []))

abbrev unreachable : Bytes → ℕ → TorProbeResult
unreachable host port = record { status = down; detail = []; elapsed = 0 }

abbrev ready_at : ℕ → Calls
ready_at port = record { socket = some 3; bound = true; listening = true; port = port }

abbrev site : WebSettings
site = record default_web { load_path = codes "a.snap"; password = codes "pw" }

abbrev api : GatewaySettings
api = record default_gateway { load_path = codes "a.snap"; password = codes "no" }

programs-IsServed_example :
    IsServed (codes "a.snap") (vault_of key_of seal unseal files (codes "a.snap") (codes "pw")) (
      run_web
        (vault_of key_of seal unseal files)
        unreachable
        0
        true
        (Bloom.make 128 3)
        ready_at
        site)
    × IsServed (codes "a.snap") (vault_of key_of seal unseal files (codes "a.snap") (codes "no")) (
        run_gateway
          (vault_of key_of seal unseal files)
          unreachable
          0
          true
          (Bloom.make 128 3)
          (λ port. (none, true))
          api)
    × IsServed (codes "a.snap") (vault_of key_of seal unseal files (codes "a.snap") (codes "pw")) (
        run_admin
          (vault_of key_of seal unseal files)
          unreachable
          0
          true
          (Bloom.make 128 3)
          ready_at
          ready_at
          (1 ∷ [])
          panel)
programs-IsServed_example =
    programs-IsServed key_of seal unseal files unreachable 0 true (Bloom.make 128 3) ready_at
      ready_at ready_at (λ port. (none, true)) (1 ∷ []) site api panel
