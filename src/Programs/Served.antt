-- ===== src/Programs/Served.antt =====
-- src/web_main.cpp, src/gateway_main.cpp and src/admin_main.cpp: the documents that a program serves.
use shadow_se.Base.{
  ℕ, ◌-◌, ◌^◌, ◌<◌, ◌≤◌, ◌≡◌, refl, sym, subst, ◌⊎◌, inl, inr, Bool, true, false, Bool-cases,
  Option, none, some, List, [], ◌∷◌, if◌then◌else◌, length, Bytes, is_empty, arith,
}
use shadow_se.Document.{Document}
use shadow_se.Bloom.{BloomFilter}
use shadow_se.Snapshot.{max_count}
use shadow_se.Vault.{Outcome, done, failed, load_encrypted}
use shadow_se.Vault.Counted.{IsFew, load_encrypted-IsFew}
use shadow_se.Index.{empty, replace_all}
use shadow_se.Index.Valid.{IsValid, empty-IsValid, replace_all-IsValid}
use shadow_se.Index.History.{Change, added, change, run_changes, run_changes-IsValid}
use shadow_se.TorProxy.{TorProbeResult}
use shadow_se.Engine.{
  Engine, demo_feed, demo_docs, demo_vault, demo_drop, add_to_index, seed_demo_data, load_documents,
}
use shadow_se.Engine.Startup.{TorManager, start_engine}
use shadow_se.TorArgs.{Config}
use shadow_se.Web.Connections.{Calls, Listener}
use shadow_se.Console.Arguments.{WebSettings}
use shadow_se.Programs.Settings.{GatewaySettings, AdminSettings}
use shadow_se.Programs.{
  Program, serving, exited, uncaught, engine_loaded, opened_documents, open_file, open_engine,
  open_web_engine, serve_gateway, serve_listeners, with_engine, run_web, run_gateway, run_admin,
}

-- An engine with a valid index which, if a path was given, holds the documents of that snapshot only.
pub record IsHolding (path : Bytes) (found : Option (List Document)) (e : Engine) : Type 0 where
  pub valid : IsValid e.index
  pub snapshot :
      (is_empty path ≡ true)
      ⊎ ((docs : List Document) × ((found ≡ some docs) × (e.index ≡ replace_all docs empty)))

abbrev pub IsServed : Bytes → Option (List Document) → Program → Type 0
IsServed path found (serving s) = IsHolding path found s.engine
IsServed path found (exited code) = Unit
IsServed path found uncaught = Unit

abbrev IsOpened : Bytes → Option (List Document) → Option Engine → Type 0
IsOpened path found none = Unit
IsOpened path found (some e) = IsHolding path found e

abbrev demo : List Change
demo = added demo_feed ∷ added demo_docs ∷ added demo_vault ∷ added demo_drop ∷ []

seed_demo_data-IsValid : (e : Engine) → e.index ≡ empty → IsValid (seed_demo_data e).index
unfolding seed_demo_data add_to_index run_changes change
seed_demo_data-IsValid e new =
    subst (λ t. IsValid (run_changes demo t)) (sym new) (run_changes-IsValid demo (omega arith))

engine_loaded-IsOpened :
    (path : Bytes) (found : Option (List Document)) (e : Engine)
    → ((docs : List Document) → found ≡ some docs → length docs < 2 ^ 64 - 1)
    → IsOpened path found (engine_loaded (load_documents found e))
unfolding engine_loaded load_documents replace_all
engine_loaded-IsOpened path none e room = tt
engine_loaded-IsOpened path (some docs) e room = record {
  valid = replace_all-IsValid docs e.index (room docs refl);
  snapshot = inr (docs, (refl, refl));
}

seeded-IsHolding :
    (path : Bytes) (found : Option (List Document)) (e : Engine)
    → IsValid e.index
    → is_empty path ≡ true
    → IsHolding path found e
seeded-IsHolding path found e v none_given = record { valid = v; snapshot = inl none_given }

module _ (path : Bytes) (found : Option (List Document)) (e : Engine) (new : e.index ≡ empty)
    (room : (docs : List Document) → found ≡ some docs → length docs < 2 ^ 64 - 1) where
  open_engine-IsOpened : IsOpened path found (open_engine path found e)
  unfolding open_engine
  open_engine-IsOpened = elim (Bool-cases (is_empty path)) [
    | inl h ↦ rw h (seeded-IsHolding path found (seed_demo_data e) (seed_demo_data-IsValid e new) h)
    | inr h ↦ rw h (engine_loaded-IsOpened path found e room)
  ]

  maybe_seeded : (seed : Bool) → IsValid (if seed then seed_demo_data e else e).index
  maybe_seeded true = seed_demo_data-IsValid e new
  maybe_seeded false = subst IsValid (sym new) empty-IsValid

  open_web_engine-IsOpened : (seed : Bool) → IsOpened path found (open_web_engine path found seed e)
  unfolding open_web_engine
  open_web_engine-IsOpened seed = elim (Bool-cases (is_empty path)) [
    | inl h ↦ rw h (seeded-IsHolding path found _ (maybe_seeded seed) h)
    | inr h ↦ rw h (engine_loaded-IsOpened path found e room)
  ]

module _ (path : Bytes) (found : Option (List Document)) where
  serve_listeners-IsServed :
      (e : Engine) (manager : TorManager) (token : Option Bytes) (ls : Option (List Listener))
      → IsHolding path found e
      → IsServed path found (serve_listeners (e, manager) token ls)
  unfolding serve_listeners
  serve_listeners-IsServed e manager token none h = tt
  serve_listeners-IsServed e manager token (some ls) h = h

  serve_gateway-IsServed :
      (e : Engine) (manager : TorManager) (port : Option ℕ)
      → IsHolding path found e
      → IsServed path found (serve_gateway (e, manager) port)
  unfolding serve_gateway
  serve_gateway-IsServed e manager none h = tt
  serve_gateway-IsServed e manager (some port) h = h

  with_engine-IsServed :
      (o : Option Engine) (f : Engine → Program)
      → IsOpened path found o
      → ((e : Engine) → IsHolding path found e → IsServed path found (f e))
      → IsServed path found (with_engine o f)
  unfolding with_engine
  with_engine-IsServed none f h k = tt
  with_engine-IsServed (some e) f h k = k e h

opened_few :
    (o : Outcome (List Document)) (docs : List Document)
    → IsFew o
    → opened_documents o ≡ some docs
    → length docs ≤ max_count
unfolding opened_documents
opened_few (done found) docs few e =
    let same : found ≡ docs = cc (e) in subst (λ ds. length ds ≤ max_count) same few
opened_few (failed f) docs few e = absurd (cc (e))

module _ (derive : Bytes → Bytes → Option Bytes) (seal : Bytes → Bytes → Bytes → Bytes)
    (unseal : Bytes → Bytes → Bytes → Option Bytes) where
  abbrev pub vault_of : (Bytes → Option Bytes) → Bytes → Bytes → Option (List Document)
  vault_of read_file path password = open_file derive seal unseal password (read_file path)

  open_file-few :
      (password : Bytes) (file : Option Bytes) (docs : List Document)
      → open_file derive seal unseal password file ≡ some docs
      → length docs < 2 ^ 64 - 1
  unfolding open_file
  open_file-few password none docs e = absurd (cc (e))
  open_file-few password (some file) docs e = omega (
    arith,
    opened_few (load_encrypted derive seal unseal password file) docs
        (load_encrypted-IsFew derive seal unseal password file) e,
  )

module _ (derive : Bytes → Bytes → Option Bytes) (seal : Bytes → Bytes → Bytes → Bytes)
    (unseal : Bytes → Bytes → Bytes → Option Bytes) (read_file : Bytes → Option Bytes)
    (probe : Bytes → ℕ → TorProbeResult) (now : ℕ) (has_curl : Bool) (bloom : BloomFilter) where
  new_engine : (cfg : Config) → (start_engine probe now has_curl bloom cfg).0.index ≡ empty
  unfolding start_engine
  new_engine cfg = refl

  -- What each of the three programs serves, if it serves, has a valid index; and if a snapshot was named on
  -- the command line, that snapshot was opened and its documents are all that the index holds: neither the
  -- demo documents nor an empty index are served in its place.
  pub programs-IsServed :
      (calls web_calls admin_calls : ℕ → Calls) (binds : ℕ → Option ℕ × Bool) (random : Bytes)
      (w : WebSettings) (g : GatewaySettings) (a : AdminSettings)
      → IsServed w.load_path
          (vault_of derive seal unseal read_file w.load_path w.password)
          (run_web (vault_of derive seal unseal read_file) probe now has_curl bloom calls w)
        × IsServed g.load_path
            (vault_of derive seal unseal read_file g.load_path g.password)
            (run_gateway (vault_of derive seal unseal read_file) probe now has_curl bloom binds g)
        × IsServed a.load_path (vault_of derive seal unseal read_file a.load_path a.password) (
            run_admin
              (vault_of derive seal unseal read_file)
              probe
              now
              has_curl
              bloom
              web_calls
              admin_calls
              random
              a)
  unfolding run_web run_gateway run_admin
  programs-IsServed calls web_calls admin_calls binds random w g a =
      let opened_w =
        open_web_engine-IsOpened w.load_path
          (vault_of derive seal unseal read_file w.load_path w.password)
          (start_engine probe now has_curl bloom w.cfg).0 (new_engine w.cfg)
          (open_file-few derive seal unseal w.password (read_file w.load_path)) w.seed in
      let opened_g =
        open_engine-IsOpened g.load_path
          (vault_of derive seal unseal read_file g.load_path g.password)
          (start_engine probe now has_curl bloom g.cfg).0 (new_engine g.cfg)
          (open_file-few derive seal unseal g.password (read_file g.load_path)) in
      let opened_a =
        open_engine-IsOpened a.load_path
          (vault_of derive seal unseal read_file a.load_path a.password)
          (start_engine probe now has_curl bloom a.cfg).0 (new_engine a.cfg)
          (open_file-few derive seal unseal a.password (read_file a.load_path)) in
      (
        with_engine-IsServed _ _ _ _ opened_w (λ e h. serve_listeners-IsServed _ _ e _ _ _ h),
        with_engine-IsServed _ _ _ _ opened_g (λ e h. serve_gateway-IsServed _ _ e _ _ h),
        with_engine-IsServed _ _ _ _ opened_a (λ e h. serve_listeners-IsServed _ _ e _ _ _ h),
      )
