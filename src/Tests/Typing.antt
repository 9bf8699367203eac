-- ===== src/Tests/Typing.antt =====
-- src/main.cpp on concrete lines.
use shadow_se.Base.{
  ℕ, suc, ◌+◌, ◌-◌, ◌*◌, ◌/◌, ◌≡◌, refl, Bool, true, false, none, some, List, [], ◌∷◌,
  if◌then◌else◌, ltb, leb, ◌==◌, All, Bytes, codes, trim, skip_space, is_space, same_bytes,
  starts_with,
}
use shadow_se.Bloom
use shadow_se.Bloom.{fnv1a}
use shadow_se.Index
use shadow_se.Crawler
use shadow_se.Crawler.{Options}
use shadow_se.Ranking.{Reals}
use shadow_se.TorPool.{no_endpoint}
use shadow_se.TorProxy.{TorProbeResult, down}
use shadow_se.Engine.Startup.{single}
use shadow_se.Console.{parse_line, search, crawl}
use shadow_se.Console.Lines.{is_usage, takes_argument, parse_line-is_usage}
use shadow_se.Console.Session.{Terminal, Files, idle}
use shadow_se.Console.Session.Keeps.{is_load}
use shadow_se.Console.Spinner.{probing, run_spinner, run_spinner_lem}

-- The name of a command alone is searched for, and so is a line that is no command.
search_alone : parse_line (codes "  search  ") ≡ search (codes "search")
unfolding parse_line trim skip_space is_space same_bytes starts_with
search_alone = refl

crawl_trimmed : parse_line (codes "crawl  a.onion ") ≡ crawl (codes "a.onion")
unfolding parse_line trim skip_space is_space same_bytes starts_with
crawl_trimmed = refl

named : takes_argument (trim (codes " save-state ")) ≡ true
unfolding takes_argument trim skip_space is_space same_bytes
named = refl

parse_line-is_usage_example :
    (is_usage (parse_line (codes "save ")) ≡ false)
    × (parse_line (codes " save-state ") ≡ search (trim (codes " save-state ")))
parse_line-is_usage_example = parse_line-is_usage (codes "save ") (codes " save-state ") named

abbrev built_at_once : ℕ → Bool
built_at_once k = true

run_spinner_lem_example :
    run_spinner (probing built_at_once) (suc 40) 0 ≡ (if built_at_once 0 then none else some 0)
run_spinner_lem_example = run_spinner_lem built_at_once 40 (λ i h. refl)

abbrev naturals : Reals ℕ
naturals = record {
  of_nat = λ n. n;
  half = 1;
  plus = λ x y. x + y;
  minus = λ x y. x - y;
  times = λ x y. x * y;
  over = λ x y. x / y;
  log = λ x. x;
  greater = λ x y. ltb y x;
  at_most = leb;
  same = λ x y. x == y;
}

abbrev no_files : Files
no_files = record {
  open_vault = λ path pw. none;
  write_vault = λ path pw docs. true;
  read_state = λ path. none;
  write_state = λ path docs. true;
}

abbrev options : Options
options = record { worker_count = 2; max_pages = 2; max_depth = 1 }

abbrev closed_port : Bytes → ℕ → TorProbeResult
closed_port host port = record { status = down; detail = []; elapsed = 0 }

abbrev terminal : Terminal
terminal = record {
  engine = record {
    index = Index.empty;
    crawler = Crawler.make (Bloom.make 128 3);
    fetcher_name = codes "stub";
    last_tor = down;
  };
  manager = single (record { ep = no_endpoint; up = false });
  task = idle;
  over = false;
}

-- The third line is the password of the snapshot.
abbrev typed : List Bytes
typed = codes "crawl a" ∷ codes "save x" ∷ codes "pw" ∷ codes "tor" ∷ codes "exit" ∷ []

typed-loads : All (λ line. is_load (parse_line line) ≡ false) typed
unfolding parse_line trim skip_space is_space same_bytes starts_with
typed-loads = (refl, (refl, (refl, (refl, (refl, tt)))))
