-- ===== src/Lib.antt =====
-- Shadow SE is a search engine for the clear web and for Tor hidden services. A crawler takes URLs
-- from its frontier, asks the robots policy, fetches a page, and adds the text to the inverted
-- index; a search ranks the indexed documents, and a web server answers queries with a page. The
-- documents can be saved to a snapshot and loaded again.
--
-- The files and the code that they model:
-- - Base: byte strings (`std::string` as a list of bytes), Boolean tests, lists, association lists
--   for `std::unordered_map`.
-- - Document: `Document` of include/shadowse/document.hpp.
-- - Tokenizer: src/tokenizer.cpp, `decodeUtf8` to `tokenize`. The offset into the text is the text
--   that is left.
-- - Index: src/inverted_index.cpp. The record `InvertedIndex` has the members of the class; each
--   public operation holds the mutex throughout, so an operation is one function on the record.
-- - Snapshot: `serializeDocuments` and `deserializeDocuments` of src/snapshot.cpp, with the reader
--   as a state of bytes that are left; Snapshot/Files the plain snapshot as a file, with the errors of the disk.
-- - Bloom: src/bloom_filter.cpp, with the words of the bit array as numbers below 2 ^ 64.
-- - Robots: src/robots_txt.cpp, from the text of a robots.txt to the verdict about a URL.
-- - Crawler: the frontier and the workers of src/crawler.cpp. `enqueue`, the pop of a worker and
--   its last update each hold the mutex, and are the steps of Crawler/Run, in any order.
-- - Crawler/Page: `process` of src/crawler.cpp, what a worker does with one URL, on the cached policies,
--   the index and the frontier together, with the fetcher as a function. Crawler/Polite: `politenessWait` of
--   one worker, on the readings of the clock.
-- - Html: what src/crawler.cpp takes out of a page: its title, description, text and links.
-- - Fetcher: src/fetcher.cpp: the retries of `CurlFetcher` over the interface of a proxy manager, which
--   Fetcher/Managers fills with the pool and with `DefaultTorProxyManager` of
--   src/tor_proxy_manager.cpp; the pages of `StubFetcher`.
-- - Json: src/json.cpp: the value and `dump` in Json, `Parser` and `parse` in Json/Parse. An array and an
--   object are lists of their own, in the order of insertion.
-- - Wire: the loops that send a response, which src/web_server.cpp and src/admin.cpp each have.
-- - Web: src/web_server.cpp, from the bytes of a client to the response; Web/Responses its bytes, and
--   Web/Connections the listening socket and the clients that are served at once.
-- - Admin: the activity log, the token and the routing of src/admin.cpp; Admin/Dashboard its page.
-- - TorProxy: the probe of src/tor_proxy.cpp on whatever the calls of the system answer.
-- - TorPool: src/tor_proxy_pool.cpp, the pool of SOCKS5 endpoints, with the circuit names of
--   src/tor_proxy_manager.cpp and the records of include/shadowse/tor_proxy_manager.hpp.
-- - Base64: `toBase64` and `fromBase64` of src/crypto.cpp.
-- - Vault: `saveEncryptedSnapshot` and `loadEncryptedSnapshot` of src/snapshot.cpp with `CryptoBox` of
--   src/crypto.cpp, over a cipher that is a parameter.
-- - Ranking: `BM25Ranker::rank` of src/bm25.cpp over abstract numbers.
-- - Engine: src/engine.cpp, the facade over the index, the ranking and the crawler; Engine/Startup its
--   constructor, with the proxy manager that it makes and probes; Engine/States its documents in files.
-- - Gateway: the handlers of src/gateway.cpp and the JSON of their answers, over Engine and Json.
-- - TorArgs: `parseProxyList` and `parseTorFlag` of src/tor_proxy_manager.cpp.
-- - Console: src/main.cpp: its command line, with that of src/web_main.cpp, the session at the terminal,
--   and the spinner of the start.
-- - Programs: src/web_main.cpp, src/gateway_main.cpp and src/admin_main.cpp, from the command line to the servers;
--   Programs/Settings the command lines of the last two.
-- - Keygen: the two encoders and the passphrase of src/se_keygen.cpp, over the random bytes.
-- - Tests: the theorems at concrete inputs.
--
-- Parameters: `std::hash` of strings, libsodium, libcurl's transfer, the fetcher of the crawler, the probe of a
-- proxy, the search behind the web server, `double` with its printing and `strtod`, and the text
-- of a number are functions of which nothing is assumed but what a theorem names.
--
-- Bounds: 32-bit and 64-bit counters wrap as in the source, written `% 2 ^ 32` and `% 2 ^ 64`, but for
-- `pending_`, `crawled_` and `seq_` of the crawler where they grow: the first two stay under the page
-- cap, and 2 ^ 64 items are not reached. The
-- loop that sends a text runs on fuel, the length of the text. The
-- tokenizer's loop runs on fuel, the length of the text: each round takes at least one byte, so
-- the fuel does not run out. The loop over a page's text and
-- the loops over its tags run on the length of the page in the same way, and the JSON parser's three
-- functions on twice the length of the text and one more. All other loops are recursions on their
-- data.
--
-- Not modelled: sockets, threads beyond the interleaving of locked sections, libcurl, libsodium
-- and the vendored HTTP library; floating-point arithmetic; two workers in `politenessWait` at once; the
-- texts on the terminal; the fallback random generator; the times and the statistics of the proxy pool.
pub mod Base
pub mod Document
pub mod Tokenizer
pub mod Snapshot
pub mod Bloom
pub mod Robots
pub mod Index
pub mod Html
pub mod Json
pub mod Fetcher
pub mod Ranking
pub mod Engine
pub mod TorArgs
pub mod Keygen
pub mod Console
pub mod Wire
pub mod TorProxy
pub mod Gateway
pub mod Crawler
pub mod Web
pub mod Admin
pub mod TorPool
pub mod Base64
pub mod Vault
mod Tests
pub mod Programs
