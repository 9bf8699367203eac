-- ===== src/Programs.antt =====
-- src/web_main.cpp, src/gateway_main.cpp and src/admin_main.cpp: from the command line to the servers, and to the
-- end of the program. `open_vault` is `loadEncryptedSnapshot` on the files at hand, and the signal that ends the
-- wait comes at any time. The texts that are printed are not modelled.
pub mod Settings
pub mod CommandLines
pub mod Served
use shadow_se.Base.{
  ℕ, ◌%◌, ◌^◌, Bool, true, false, Option, none, some, List, [], ◌∷◌, ◌++◌, ltb, ◌==◌, if◌then◌else◌,
  map, Bytes, is_empty,
}
use shadow_se.Document.{Document}
use shadow_se.Bloom.{BloomFilter}
use shadow_se.Vault.{Outcome, done, failed, load_encrypted}
use shadow_se.TorProxy.{TorProbeResult}
use shadow_se.Engine.{Engine, seed_demo_data, load_documents, shutdown}
use shadow_se.Engine.Startup.{TorManager, start_engine}
use shadow_se.Web.Connections.{Calls, StartError, Listener, start, stop_listener}
use shadow_se.Admin.{choose_token}
use shadow_se.Console.Arguments.{
  Launch, run, show_usage, crashed, unknown_option, WebSettings, default_web, parse_web_arguments,
}
use shadow_se.Programs.Settings.{
  GatewaySettings, AdminSettings, default_gateway, default_admin, parse_gateway_arguments,
  parse_admin_arguments,
}

-- A program that serves: its engine, its own listening sockets, the port of the JSON gateway and the token of
-- the dashboard.
pub record Serving : Type 0 where
  pub engine : Engine
  pub manager : TorManager
  pub listeners : List Listener
  pub gateway_port : Option ℕ
  pub token : Option Bytes

pub data Program : Type 0 where
  serving : Serving → Program
  exited : ℕ → Program
  -- An exception that nothing catches.
  uncaught : Program

abbrev pub new_listener : Listener
new_listener = record { listen_fd = none; port = 0; running = false; open_fds = [] }

unfoldable pub opened_documents : Outcome (List Document) → Option (List Document)
opened_documents (done docs) = some docs
opened_documents (failed f) = none

-- `loadEncryptedSnapshot` on the bytes of a file, or on none if it cannot be read.
unfoldable pub open_file :
    (Bytes → Bytes → Option Bytes)
    → (Bytes → Bytes → Bytes → Bytes)
    → (Bytes → Bytes → Bytes → Option Bytes)
    → Bytes
    → Option Bytes
    → Option (List Document)
unfolding opened_documents
open_file derive seal unseal password none = none
open_file derive seal unseal password (some file) =
    opened_documents (load_encrypted derive seal unseal password file)

-- The result of `loadEncrypted`.
unfoldable pub engine_loaded : Bool × Engine → Option Engine
engine_loaded (ok, e) = if ok then some e else none

-- The engine with the snapshot, or with the demo documents if no path is given.
unfoldable pub open_engine : Bytes → Option (List Document) → Engine → Option Engine
unfolding engine_loaded
open_engine path found e =
    if is_empty path then some (seed_demo_data e) else engine_loaded (load_documents found e)

-- `shadow-se-web` seeds only if it may.
unfoldable pub open_web_engine : Bytes → Option (List Document) → Bool → Engine → Option Engine
unfolding engine_loaded
open_web_engine path found seed e =
    if is_empty path
    then some (if seed then seed_demo_data e else e)
    else engine_loaded (load_documents found e)

-- A server that has started.
unfoldable pub started : Option StartError × Listener → Option Listener
started (none, l) = some l
started (some error, l) = none

-- `JsonGateway::start`: the port that `bind_to_any_port` answers, or whether `bind_to_port` succeeds.
unfoldable pub start_gateway : Option ℕ → Bool → ℕ → Option ℕ
start_gateway any bound port =
    if port == 0
    then elim any [ none ↦ none | some p ↦ if ltb 0 p then some (p % 2 ^ 16) else none ]
    else if bound
    then some port
    else none

unfoldable pub serve_gateway : Engine × TorManager → Option ℕ → Program
serve_gateway (e, manager) none = exited 1
serve_gateway (e, manager) (some port) =
    serving record {
      engine = e;
      manager = manager;
      listeners = [];
      gateway_port = some port;
      token = none;
    }

unfoldable pub serve_listeners :
    Engine × TorManager → Option Bytes → Option (List Listener) → Program
serve_listeners (e, manager) token none = exited 1
serve_listeners (e, manager) token (some ls) =
    serving
      record { engine = e; manager = manager; listeners = ls; gateway_port = none; token = token }

-- The web server, unless it runs elsewhere, and then the dashboard.
unfoldable pub add_listener : Option Listener → Option (List Listener) → Option (List Listener)
add_listener found none = none
add_listener none (some ls) = none
add_listener (some l) (some ls) = some (l ∷ ls)

unfoldable pub start_admin : (ℕ → Calls) → (ℕ → Calls) → AdminSettings → Option (List Listener)
unfolding add_listener started
start_admin web_calls admin_calls s =
    let web : Option (List Listener) =
      if s.serve_web
      then add_listener (started (start (web_calls s.web_port) new_listener)) (some [])
      else some [] in
    add_listener (started (start (admin_calls s.admin_port) new_listener)) web

unfoldable pub after_launch : {S : Type 0} → (S → Program) → Launch S → Program
after_launch f (run s) = f s
after_launch f show_usage = exited 0
after_launch f crashed = uncaught
after_launch f (unknown_option arg) = exited 1

-- Behind the loading of the snapshot; it ends with 1 where that fails.
unfoldable pub with_engine : Option Engine → (Engine → Program) → Program
with_engine none f = exited 1
with_engine (some e) f = f e

module _ (open_vault : Bytes → Bytes → Option (List Document)) (probe : Bytes → ℕ → TorProbeResult)
    (now : ℕ) (has_curl : Bool) (bloom : BloomFilter) where
  unfoldable pub run_web : (ℕ → Calls) → WebSettings → Program
  unfolding open_web_engine serve_listeners started add_listener
  run_web calls s =
      let (e, manager) = start_engine probe now has_curl bloom s.cfg in
      let found = open_vault s.load_path s.password in
      with_engine (open_web_engine s.load_path found s.seed e) (λ (e' : Engine).
        serve_listeners (e', manager) none
          (add_listener (started (start (calls s.port) new_listener)) (some [])))

  unfoldable pub run_gateway : (ℕ → Option ℕ × Bool) → GatewaySettings → Program
  unfolding open_engine serve_gateway start_gateway
  run_gateway binds s =
      let (e, manager) = start_engine probe now has_curl bloom s.cfg in
      let found = open_vault s.load_path s.password in
      with_engine (open_engine s.load_path found e) (λ (e' : Engine).
        serve_gateway (e', manager) (start_gateway (binds s.port).0 (binds s.port).1 s.port))

  unfoldable pub run_admin : (ℕ → Calls) → (ℕ → Calls) → Bytes → AdminSettings → Program
  unfolding open_engine serve_listeners start_admin choose_token
  run_admin web_calls admin_calls random s =
      let (e, manager) = start_engine probe now has_curl bloom s.cfg in
      let found = open_vault s.load_path s.password in
      with_engine (open_engine s.load_path found e) (λ (e' : Engine).
        serve_listeners (e', manager) (some (choose_token random s.token))
          (start_admin web_calls admin_calls s))

  -- The three programs, from their arguments.
  unfoldable pub web_main : (ℕ → Bytes) → (ℕ → Calls) → List Bytes → Program
  unfolding run_web after_launch
  web_main to_string calls args =
      after_launch (run_web calls) (parse_web_arguments to_string args default_web)

  unfoldable pub gateway_main : (ℕ → Bytes) → (ℕ → Option ℕ × Bool) → List Bytes → Program
  unfolding run_gateway after_launch
  gateway_main to_string binds args =
      after_launch (run_gateway binds) (parse_gateway_arguments to_string args default_gateway)

  unfoldable pub admin_main : (ℕ → Bytes) → (ℕ → Calls) → (ℕ → Calls) → Bytes → List Bytes → Program
  unfolding run_admin after_launch
  admin_main to_string web_calls admin_calls random args =
      after_launch (run_admin web_calls admin_calls random)
        (parse_admin_arguments to_string args default_admin)

-- Behind the signal: the servers stop, then the crawler.
unfoldable pub stop_serving : Serving → Serving
stop_serving s = record s { engine = shutdown s.engine; listeners = map stop_listener s.listeners }
