-- ===== src/Console/Session/Keeps.antt =====
-- src/main.cpp: what a session leaves alone.
use shadow_se.Base.{ℕ, ◌≡◌, refl, ◌∙◌, Bool, true, false, List, [], ◌∷◌, if◌then◌else◌, All, Bytes}
use shadow_se.Index.{InvertedIndex}
use shadow_se.Ranking.{Reals}
use shadow_se.Crawler.{Options}
use shadow_se.TorProxy.{TorProbeResult}
use shadow_se.Engine.{Engine, normalize_url, shutdown}
use shadow_se.Engine
use shadow_se.Engine.Startup.{probe_engine}
use shadow_se.Console.{
  Command, leave, help, status, admin, nothing, search, crawl, save, load, save_state, load_state,
  usage, parse_line,
}
use shadow_se.Console.Session.{
  Task, idle, saving, loading, Output, Terminal, Files, with_password, crawl_target, obey,
  take_line, run_session,
}

abbrev pub is_load : Command → Bool
is_load (load path) = true
is_load (load_state path) = true
is_load _ = false

abbrev pub is_loading : Task → Bool
is_loading idle = false
is_loading (saving path) = false
is_loading (loading path) = true

-- The index is that of the other state, and no file is about to be loaded.
abbrev Keeps : Terminal → Terminal → Type 0
Keeps t t' = (t'.engine.index ≡ t.engine.index) × (is_loading t'.task ≡ false)

either_index :
    {D : Type 0} (test : Bool) (x y : List (Output D) × Terminal) {index : InvertedIndex}
    → x.1.engine.index ≡ index
    → y.1.engine.index ≡ index
    → (if test then x else y).1.engine.index ≡ index
either_index true x y h k = h
either_index false x y h k = k

module _ {D : Type 0} (files : Files) (reals : Reals D) (k1 b : D) (hash : Bytes → ℕ) (o : Options)
    (probe : Bytes → ℕ → TorProbeResult) (now : ℕ) where
  with_password-Keeps :
      (task : Task) (pw : Bytes) (t : Terminal)
      → is_loading task ≡ false
      → is_loading t.task ≡ false
      → Keeps t (with_password {D = D} files task pw t).1
  unfolding with_password
  with_password-Keeps idle pw t h k = (refl, k)
  with_password-Keeps (saving path) pw t h k = (refl, refl)
  with_password-Keeps (loading path) pw t h k = absurd (cc)

  crawl_target-Keeps :
      (url : Bytes) (t : Terminal)
      → is_loading t.task ≡ false
      → Keeps t (crawl_target {D = D} files reals k1 b hash o probe now url t).1
  unfolding crawl_target Engine.crawl
  crawl_target-Keeps [] t k = (refl, k)
  crawl_target-Keeps (c ∷ url) t k = (refl, k)

  obey-Keeps :
      (c : Command) (t : Terminal)
      → is_load c ≡ false
      → is_loading t.task ≡ false
      → Keeps t (obey {D = D} files reals k1 b hash o probe now c t).1
  unfolding obey shutdown probe_engine
  obey-Keeps leave t h k = (refl, k)
  obey-Keeps help t h k = (refl, k)
  obey-Keeps status t h k = (refl, k)
  obey-Keeps admin t h k = (refl, k)
  obey-Keeps nothing t h k = (refl, k)
  obey-Keeps (search query) t h k = (refl, k)
  obey-Keeps (crawl target) t h k = crawl_target-Keeps (normalize_url target) t k
  obey-Keeps (save path) t h k = (refl, refl)
  obey-Keeps (load path) t h k = absurd (cc)
  obey-Keeps (save_state path) t h k = (refl, k)
  obey-Keeps (load_state path) t h k = absurd (cc)
  obey-Keeps (usage name) t h k = (refl, k)

  take_line-Keeps :
      (line : Bytes) (task : Task) (t : Terminal)
      → is_load (parse_line line) ≡ false
      → is_loading task ≡ false
      → is_loading t.task ≡ false
      → Keeps t (take_line {D = D} files reals k1 b hash o probe now line task t).1
  unfolding take_line
  take_line-Keeps line idle t h j k = obey-Keeps (parse_line line) t h k
  take_line-Keeps line (saving path) t h j k = with_password-Keeps (saving path) line t j k
  take_line-Keeps line (loading path) t h j k = absurd (cc)

  -- Whatever is typed in a session, as long as no line asks to load a file, the index is the same at its end:
  -- searching, crawling, saving, the state and the end of the session leave it alone.
  pub run_session-index :
      (lines : List Bytes) (t : Terminal)
      → All (λ line. is_load (parse_line line) ≡ false) lines
      → is_loading t.task ≡ false
      → (run_session {D = D} files reals k1 b hash o probe now lines t).1.engine.index
        ≡ t.engine.index
  unfolding run_session
  run_session-index [] t h k = (with_password-Keeps t.task [] t k k).0
  run_session-index (line ∷ lines) t h k =
      let t' = (take_line {D = D} files reals k1 b hash o probe now line t.task t).1 in
      let kept = take_line-Keeps line t.task t h.0 k k in
      let behind = run_session-index lines t' h.1 kept.1 ∙ kept.0 in
      either_index t.over _ _ refl behind
