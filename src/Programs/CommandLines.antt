-- ===== src/Programs/CommandLines.antt =====
-- src/admin_main.cpp: the command line that gives the settings of a program.
use shadow_se.Base.{
  ℕ, ◌^◌, ◌<◌, ◌≡◌, refl, ap, ◌∙◌, Bool, true, false, Option, some, List, [], ◌∷◌, if◌then◌else◌,
  Bytes, codes, same_bytes, arith,
}
use shadow_se.TorArgs.{Config, default_config}
use shadow_se.Engine.Startup.Endpoints.{IsPrinted, signed_number-printed}
use shadow_se.Console.Arguments.{
  Launch, run, int_of, cast_u16, parse_port, takes_value, end_arguments, read_arguments,
}
use shadow_se.Programs.Settings.{
  AdminSettings, default_admin, set_fetch_flag, is_admin_value, set_admin_value, set_admin_flag,
  parse_admin_arguments,
}

parse_port-printed : (s : Bytes) (n : ℕ) → IsPrinted s n → n < 2 ^ 16 → parse_port s ≡ some n
unfolding parse_port int_of cast_u16
parse_port-printed s n p low = rw (signed_number-printed s n p, parse_port) (ground arith)

module _ {S : Type 0} (takes : Bytes → Bool) (set_value : Bytes → Bytes → S → Option S)
    (set_flag : Bytes → S → Option S) where
  read_arguments-value :
      (arg value : Bytes) (args : List Bytes) (s s' : S)
      → takes arg ≡ true
      → set_value arg value s ≡ some s'
      → read_arguments takes set_value set_flag (arg ∷ value ∷ args) s
        ≡ read_arguments takes set_value set_flag args s'
  unfolding read_arguments
  read_arguments-value arg value args s s' h k = rw (h, k) refl

  read_arguments-flag :
      (arg : Bytes) (args : List Bytes) (s s' : S)
      → takes arg ≡ false
      → set_flag arg s ≡ some s'
      → read_arguments takes set_value set_flag (arg ∷ args) s
        ≡ read_arguments takes set_value set_flag args s'
  unfolding read_arguments end_arguments
  read_arguments-flag arg [] s s' h k = rw (h, k) refl
  read_arguments-flag arg (value ∷ args) s s' h k = rw (h, k) refl

-- A command line for the settings.
abbrev pub web_flag : Bool → List Bytes
web_flag serve_web = if serve_web then [] else codes "--no-web" ∷ []

abbrev pub admin_arguments : (ℕ → Bytes) → AdminSettings → List Bytes
admin_arguments to_string s =
    (if s.cfg.use_stub_fetcher then codes "--stub" else codes "--curl")
    ∷ codes "--port"
    ∷ to_string s.admin_port
    ∷ codes "--web-port"
    ∷ to_string s.web_port
    ∷ codes "--token"
    ∷ s.token
    ∷ codes "--onion-dir"
    ∷ s.onion_dir
    ∷ codes "--load"
    ∷ s.load_path
    ∷ codes "--password"
    ∷ s.password
    ∷ web_flag s.serve_web

module _ (to_string : ℕ → Bytes) where
  abbrev settled : List Bytes → AdminSettings → Launch AdminSettings
  settled args s =
      read_arguments is_admin_value (set_admin_value to_string) (set_admin_flag to_string) args s

  set_admin_value-port :
      (value : Bytes) (n : ℕ) (s : AdminSettings)
      → parse_port value ≡ some n
      → (set_admin_value to_string (codes "--port") value s ≡ some (record s { admin_port = n }))
        × (set_admin_value to_string (codes "--web-port") value s
            ≡ some (record s { web_port = n }))
  unfolding set_admin_value same_bytes
  set_admin_value-port value n s h = (rw h refl, rw h refl)

  settled-web_flag :
      (serve_web : Bool) (s : AdminSettings)
      → s.serve_web ≡ true
      → settled (web_flag serve_web) s ≡ run (record s { serve_web = serve_web })
  unfolding read_arguments end_arguments is_admin_value set_admin_flag takes_value same_bytes
  settled-web_flag true s h = ap (λ (b : Bool). run (record s { serve_web = b })) h
  settled-web_flag false s h = refl

  settled-fetcher :
      (stub : Bool) (args : List Bytes)
      → settled ((if stub then codes "--stub" else codes "--curl") ∷ args) default_admin
        ≡ settled args
            (record default_admin { cfg = record default_config { use_stub_fetcher = stub } })
  unfolding is_admin_value set_admin_flag set_fetch_flag takes_value same_bytes
  settled-fetcher true args =
      read_arguments-flag is_admin_value (set_admin_value to_string) (set_admin_flag to_string)
        (codes "--stub") args default_admin _ refl refl
  settled-fetcher false args =
      read_arguments-flag is_admin_value (set_admin_value to_string) (set_admin_flag to_string)
        (codes "--curl") args default_admin _ refl refl

  settled-value :
      (arg value : Bytes) (args : List Bytes) (s s' : AdminSettings)
      → is_admin_value arg ≡ true
      → set_admin_value to_string arg value s ≡ some s'
      → settled (arg ∷ value ∷ args) s ≡ settled args s'
  settled-value =
      read_arguments-value is_admin_value (set_admin_value to_string) (set_admin_flag to_string)

  -- Whatever the token, the directory, the path, the password and the ports below 2 ^ 16 are, the command
  -- line that names them, the fetcher and whether the web server runs gives `shadow-se-admin` exactly these
  -- settings, a value that looks like a flag included; the rest is the default. `to_string` prints the two
  -- ports in decimal.
  pub parse_admin_arguments-admin_arguments :
      (s : AdminSettings)
      → IsPrinted (to_string s.admin_port) s.admin_port
      → IsPrinted (to_string s.web_port) s.web_port
      → s.admin_port < 2 ^ 16
      → s.web_port < 2 ^ 16
      → parse_admin_arguments to_string (admin_arguments to_string s) default_admin
        ≡ run
            (record s { cfg = record default_config { use_stub_fetcher = s.cfg.use_stub_fetcher } })
  unfolding parse_admin_arguments is_admin_value set_admin_value takes_value same_bytes
  parse_admin_arguments-admin_arguments s p q low low' =
      let port = parse_port-printed (to_string s.admin_port) s.admin_port p low in
      let web = parse_port-printed (to_string s.web_port) s.web_port q low' in
      let fetcher : Config = record default_config { use_stub_fetcher = s.cfg.use_stub_fetcher } in
      let begun : AdminSettings = record default_admin { cfg = fetcher } in
      let ported : AdminSettings = record begun { admin_port = s.admin_port } in
      settled-fetcher s.cfg.use_stub_fetcher _
      ∙ settled-value (codes "--port") (to_string s.admin_port) _ begun ported refl
          (set_admin_value-port (to_string s.admin_port) s.admin_port begun port).0
      ∙ settled-value (codes "--web-port") (to_string s.web_port) _ ported
          (record ported { web_port = s.web_port }) refl
          (set_admin_value-port (to_string s.web_port) s.web_port ported web).1
      ∙ settled-value (codes "--token") s.token _ _ _ refl refl
      ∙ settled-value (codes "--onion-dir") s.onion_dir _ _ _ refl refl
      ∙ settled-value (codes "--load") s.load_path _ _ _ refl refl
      ∙ settled-value (codes "--password") s.password _ _ _ refl refl
      ∙ settled-web_flag s.serve_web _ refl
