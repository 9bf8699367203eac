-- ===== src/Console/Session.antt =====
-- src/main.cpp: a session at the terminal. The output is what is said, not its text; files and the cipher are
-- parameters, and the crawler's workers take no step between two lines. A password is the next line that
-- is typed, and is empty at the end of the input.
pub mod Keeps
use shadow_se.Base.{
  ℕ, Bool, true, false, Option, none, some, List, [], ◌∷◌, ◌++◌, if◌then◌else◌, Bytes, is_empty,
}
use shadow_se.Document.{Document}
use shadow_se.Index.{InvertedIndex, all_documents, document_count}
use shadow_se.Ranking.{Reals, Scored}
use shadow_se.Crawler.{Options}
use shadow_se.TorProxy.{TorStatus, TorProbeResult}
use shadow_se.Engine.{
  Engine, normalize_url, search_documents, pending_crawls, crawled_pages, shutdown, load_documents,
}
use shadow_se.Engine
use shadow_se.Engine.Startup.{TorManager, probe_engine}
use shadow_se.Console.{
  Command, leave, help, status, admin, nothing, search, crawl, save, load, save_state, load_state,
  usage, parse_line,
}

-- A command that waits for the password.
pub data Task : Type 0 where
  idle : Task
  saving loading : Bytes → Task

pub data Output (D : Type 0) : Type 0 where
  farewell : ℕ → Output D
  help_text empty_target empty_password : Output D
  tor_status : TorStatus → ℕ → Output D
  dashboard : Output D
  usage_of : Bytes → Output D
  matches : List (Scored D) → Output D
  dispatched : Bytes → Bool → ℕ → ℕ → Output D
  saved loaded : Bytes → Bool → ℕ → Output D

pub record Terminal : Type 0 where
  pub engine : Engine
  pub manager : TorManager
  pub task : Task
  pub over : Bool

-- The files: a snapshot that is opened with a password, a plain one, and whether one can be written.
pub record Files : Type 0 where
  pub open_vault : Bytes → Bytes → Option (List Document)
  pub write_vault : Bytes → Bytes → List Document → Bool
  pub read_state : Bytes → Option (List Document)
  pub write_state : Bytes → List Document → Bool

module _ {D : Type 0} (files : Files) where
  unfoldable pub load_from : Bytes → Option (List Document) → Terminal → List (Output D) × Terminal
  load_from path found t =
      let (ok, e) = load_documents found t.engine in
      (loaded path ok (document_count e.index) ∷ [], record t { engine = e; task = idle })

  -- `handleSave` and `handleLoad` behind the password.
  unfoldable pub with_password : Task → Bytes → Terminal → List (Output D) × Terminal
  unfolding load_from
  with_password idle pw t = ([], t)
  with_password (saving path) pw t = (
    (if is_empty pw
          then empty_password
          else saved path (files.write_vault path pw (all_documents t.engine.index))
              (document_count t.engine.index))
        ∷ [],
    record t { task = idle },
  )
  with_password (loading path) pw t = load_from path (files.open_vault path pw) t

  module _ (reals : Reals D) (k1 b : D) (hash : Bytes → ℕ) (o : Options)
      (probe : Bytes → ℕ → TorProbeResult) (now : ℕ) where
    -- `handleCrawl` on the address with its scheme.
    unfoldable pub crawl_target : Bytes → Terminal → List (Output D) × Terminal
    crawl_target url t =
        let (accepted, e) = Engine.crawl hash o url t.engine in
        if is_empty url then (empty_target ∷ [], t) else (
          dispatched url accepted (pending_crawls e) (crawled_pages e) ∷ [],
          record t { engine = e },
        )

    unfoldable pub obey : Command → Terminal → List (Output D) × Terminal
    unfolding crawl_target load_from
    obey leave t = (
      farewell (pending_crawls t.engine) ∷ [],
      record t { engine = shutdown t.engine; over = true },
    )
    obey help t = (help_text ∷ [], t)
    obey status t =
        let (tor, both) = probe_engine probe now (t.engine, t.manager) in
        (
          tor_status tor (document_count both.0.index) ∷ [],
          record t { engine = both.0; manager = both.1 },
        )
    obey admin t = (dashboard ∷ [], t)
    obey nothing t = ([], t)
    obey (search query) t = (matches (search_documents reals k1 b query 10 t.engine) ∷ [], t)
    obey (crawl target) t = crawl_target (normalize_url target) t
    obey (save path) t = ([], record t { task = saving path })
    obey (load path) t = ([], record t { task = loading path })
    obey (save_state path) t = (
      saved path (files.write_state path (all_documents t.engine.index))
            (document_count t.engine.index)
          ∷ [],
      t,
    )
    obey (load_state path) t = load_from path (files.read_state path) t
    obey (usage name) t = (usage_of name ∷ [], t)

    unfoldable pub take_line : Bytes → Task → Terminal → List (Output D) × Terminal
    unfolding obey with_password
    take_line line idle t = obey (parse_line line) t
    take_line line (saving path) t = with_password (saving path) line t
    take_line line (loading path) t = with_password (loading path) line t

    -- The command loop; the input may end where a password is asked for.
    unfoldable pub run_session : List Bytes → Terminal → List (Output D) × Terminal
    unfolding take_line with_password
    run_session [] t = with_password t.task [] t
    run_session (line ∷ lines) t =
        let (out, t') = take_line line t.task t in
        let (outs, t'') = run_session lines t' in if t.over then ([], t) else (out ++ outs, t'')
