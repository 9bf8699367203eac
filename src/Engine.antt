-- ===== src/Engine.antt =====
-- src/engine.cpp: the facade over the index, the ranking and the crawler. Startup has the constructor.
pub mod Urls
pub mod Startup
pub mod Found
pub mod States
use shadow_se.Base.{
  ℕ, Bool, true, false, not, ◌&&◌, Option, none, some, List, [], ◌∷◌, ◌++◌, if◌then◌else◌, Bytes,
  codes, starts_with, trim,
}
use shadow_se.Document.{SourceType, clear_web, onion, Document}
use shadow_se.Tokenizer.{tokenize}
use shadow_se.Index.{InvertedIndex, add_document, replace_all, all_documents}
use shadow_se.Ranking.{Reals, Scored, rank}
use shadow_se.Crawler.{Options, Crawler, enqueue, request_stop}
use shadow_se.Crawler
use shadow_se.TorProxy.{TorStatus}

pub record Engine : Type 0 where
  pub index : InvertedIndex
  pub crawler : Crawler
  pub fetcher_name : Bytes
  pub last_tor : TorStatus

unfoldable pub with_scheme : Bytes → Bytes
with_scheme [] = []
with_scheme (c ∷ url) =
    if not (starts_with (codes "http://") (c ∷ url))
      && not (starts_with (codes "https://") (c ∷ url))
    then codes "http://" ++ c ∷ url
    else c ∷ url

unfoldable pub normalize_url : Bytes → Bytes
unfolding with_scheme
normalize_url input = with_scheme (trim input)

module _ {D : Type 0} (reals : Reals D) (k1 b : D) where
  unfoldable pub search_documents : Bytes → ℕ → Engine → List (Scored D)
  search_documents query limit e = rank reals k1 b e.index (tokenize query) limit

module _ (hash : Bytes → ℕ) (o : Options) where
  unfoldable pub crawl : Bytes → Engine → Bool × Engine
  crawl url e =
      let (accepted, c) = enqueue hash o url 0 none e.crawler in
      (accepted, record e { crawler = c })

unfoldable pub pending_crawls : Engine → ℕ
pending_crawls e = e.crawler.pending

unfoldable pub crawled_pages : Engine → ℕ
crawled_pages e = e.crawler.crawled

unfoldable pub crawler_busy : Engine → Bool
crawler_busy e = e.crawler.running

unfoldable pub shutdown : Engine → Engine
shutdown e = record e { crawler = request_stop e.crawler }

abbrev pub demo_feed : Document
demo_feed = record {
  id = 0;
  url = codes "https://shadow-se.internal/intel/feed-2026";
  title = codes "Shadow SE Threat Intelligence Feed";
  snippet = codes "Clearweb crawler telemetry, TLS transparency logs, IOC correlation";
  content =
      codes "Real-time clearweb crawler telemetry, TLS certificate "
      ++ (codes "transparency logs, IOC correlation matrices, dark threat "
          ++ codes "intelligence reporting and sandbox analysis pipelines.");
  source = clear_web;
  depth = 0;
}

abbrev pub demo_docs : Document
demo_docs = record {
  id = 0;
  url = codes "https://github.com/alhassanshehade/shadow-se-docs";
  title = codes "Open Source OSINT Framework Documentation";
  snippet = codes "Architecture overview for C++20 memory safety, sandboxing, index compression";
  content =
      codes "Comprehensive architecture overview for the modern C++20 memory "
      ++ (codes "safety model, sandboxing, inverted index compression, bm25 ranking "
          ++ codes "and tor routing used by the shadow search engine.");
  source = clear_web;
  depth = 0;
}

abbrev pub demo_vault : Document
demo_vault = record {
  id = 0;
  url = codes "http://shadow77ivq2cc3x.onion/index/vault";
  title = codes "DeepNet Secured Vault // Index Node 04";
  snippet = codes "Encrypted storage node with scraped telemetry, logs, historical metadata";
  content =
      codes "Encrypted storage node containing scraped telemetry, logs and "
      ++ (codes "historical metadata mapping across darknet hidden services. Indexed "
          ++ codes "onion vault maintained over the tor anonymity network.");
  source = onion;
  depth = 0;
}

abbrev pub demo_drop : Document
demo_drop = record {
  id = 0;
  url = codes "http://anondrop55s3q5xx.onion/drop";
  title = codes "Hidden Services Directory & Mirror";
  snippet = codes "Decentralized onion drop point verified via SOCKS5 proxy routing loop";
  content =
      codes "Decentralized onion drop point. Verified active via SOCKS5 proxy "
      ++ (codes "routing loop against the local tor daemon on 127.0.0.1:9050. "
          ++ codes "Accepts mirror submissions and metadata exchange.");
  source = onion;
  depth = 0;
}

unfoldable pub add_to_index : Document → Engine → Engine
add_to_index doc e = record e { index = (add_document doc e.index).1 }

unfoldable pub seed_demo_data : Engine → Engine
unfolding add_to_index
seed_demo_data e =
    add_to_index demo_drop
      (add_to_index demo_vault (add_to_index demo_docs (add_to_index demo_feed e)))

-- The end of `loadEncrypted` and `loadState`: the documents that were read, or none after an error.
unfoldable pub load_documents : Option (List Document) → Engine → Bool × Engine
load_documents none e = (false, e)
load_documents (some docs) e = (true, record e { index = replace_all docs e.index })
