-- ===== src/Fetcher.antt =====
-- src/fetcher.cpp: the fetcher over libcurl, whose part is the function `perform`, and the offline
-- fetcher. The proxy manager is an interface: `TorProxyManager` in include/shadowse/tor_proxy_manager.hpp.
pub mod Stub
pub mod Retry
pub mod Managers
use shadow_se.Base.{
  ℕ, zero, suc, ◌+◌, ◌%◌, ◌^◌, Bool, true, false, not, ◌&&◌, ◌||◌, Option, none, some, List, [],
  ◌∷◌, ◌++◌, ltb, leb, ◌==◌, if◌then◌else◌, Bytes, codes, is_empty,
}
use shadow_se.TorPool.{TorEndpoint, no_endpoint, is_onion_url}
use shadow_se.Crawler.Page.{FetchResult}

-- The codes that `isTransientCurlError` names, and all others.
pub data CurlCode : Type 0 where
  curl_ok could_not_connect could_not_resolve_proxy timed_out send_failed receive_failed : CurlCode
  proxy_failed http2_failed other_failure : CurlCode

unfoldable pub is_curl_ok : CurlCode → Bool
is_curl_ok curl_ok = true
is_curl_ok code = false

unfoldable pub is_transient : CurlCode → Bool
is_transient curl_ok = false
is_transient other_failure = false
is_transient code = true

-- What one transfer leaves behind: the code, the HTTP status, the body and the text of the error
-- buffer or, if it is empty, of `curl_easy_strerror`.
pub record Transfer : Type 0 where
  pub code : CurlCode
  pub status : ℕ
  pub body : Bytes
  pub message : Bytes

-- The members of the manager that the fetcher calls. A latency is a number of milliseconds. A null
-- manager behaves as one that selects no endpoint and grants no retry.
pub record Manager (S : Type 0) : Type 0 where
  pub select : Bytes → S → TorEndpoint × S
  pub report_success : Bytes → ℕ → ℕ → S → S
  pub report_failure : Bytes → ℕ → S → S
  pub max_retries : Bytes → S → ℕ

-- A transfer as it was asked for: the address and the proxy, empty for a direct connection.
pub record Request : Type 0 where
  pub url : Bytes
  pub proxy : Bytes
  pub username : Bytes
  pub password : Bytes

pub record Session (S : Type 0) : Type 0 where
  pub result : FetchResult
  pub manager : S
  pub requests : List Request

abbrev pub no_result : FetchResult
no_result = record { ok = false; html = []; error = [] }

-- The text of a number is that of `std::to_string`.
module _ (to_string : ℕ → Bytes) where
  unfoldable pub endpoint_key : TorEndpoint → Bytes
  endpoint_key ep = ep.host ++ b':' ∷ to_string ep.port

  unfoldable pub socks5_url : TorEndpoint → Bytes
  socks5_url ep = codes "socks5h://" ++ (ep.host ++ b':' ∷ to_string ep.port)

  unfoldable pub proxy_of : TorEndpoint → Bytes
  unfolding socks5_url
  proxy_of ep = if is_empty ep.host || ep.port == 0 then [] else socks5_url ep

  unfoldable pub is_success : Transfer → Bool
  is_success t = is_curl_ok t.code && ltb t.status 400

  unfoldable pub error_of : Transfer → Bytes
  error_of t = if is_curl_ok t.code then codes "HTTP " ++ to_string t.status else t.message

  -- Whether a failed transfer may be tried again.
  unfoldable pub is_retried : Bool → Transfer → Bool
  is_retried is_onion t = not (leb 400 t.status) && (is_transient t.code || is_onion)

  -- `perform` gets the number of the attempt; it gives nothing if `curl_easy_init` fails. The
  -- latency of an attempt is `latency`.
  module _ {S : Type 0} (manager : Manager S) (perform : ℕ → Request → Option Transfer)
      (latency : ℕ → ℕ) where
    unfoldable pub report_transfer : ℕ → TorEndpoint → Bool → S → S
    report_transfer attempt ep success s =
        if is_empty ep.host
        then s
        else if success
        then manager.report_success ep.host ep.port (latency attempt) s
        else manager.report_failure ep.host ep.port s

    -- What an attempt with the endpoint `ep` comes to: the session, and whether another one follows.
    unfoldable pub settle :
        Bool → ℕ → TorEndpoint → Request → Option Transfer → FetchResult → S → Session S × Bool
    settle is_onion attempt ep request none result s = (
      record {
        result = record result { error = codes "curl_easy_init() failed" };
        manager = s;
        requests = [];
      },
      false,
    )
    settle is_onion attempt ep request (some t) result s = (
      record {
        result =
            if is_success t
            then record result { ok = true; html = t.body }
            else record result { error = error_of t };
        manager = report_transfer attempt ep (is_success t) s;
        requests = request ∷ [];
      },
      not (is_success t) && is_retried is_onion t,
    )

    unfoldable pub request_for : Bytes → TorEndpoint → Request
    unfolding proxy_of
    request_for url ep = record {
      url = url;
      proxy = proxy_of ep;
      username = if is_empty (proxy_of ep) then [] else ep.username;
      password = if is_empty (proxy_of ep) || is_empty ep.username then [] else ep.password;
    }

    unfoldable pub attempt_once : ℕ → Bytes → FetchResult → S → Session S × Bool
    unfolding settle proxy_of request_for
    attempt_once attempt url result s =
        let (ep, s') = manager.select url s in
        let request = request_for url ep in
        if is_onion_url url && is_empty (proxy_of ep)
        then (
          record {
            result = record result {
              error =
                  codes
                    "onion target requires Tor; no healthy SOCKS5 proxy available (run 'status')";
            };
            manager = s';
            requests = [];
          },
          false,
        )
        else settle (is_onion_url url) attempt ep request (perform attempt request) result s'

    unfoldable pub join : List Request → Session S → Session S
    join requests session = record session { requests = requests ++ session.requests }

    -- The rounds that are left.
    unfoldable pub attempts_from : ℕ → ℕ → Bytes → FetchResult → S → Session S
    unfolding attempt_once join
    attempts_from zero attempt url result s = record { result = result; manager = s; requests = [] }
    attempts_from (suc left) attempt url result s =
        let (session, again) = attempt_once attempt url result s in
        let rest = attempts_from left (attempt + 1) url session.result session.manager in
        if again then join session.requests rest else session

    -- `1 + maxRetries(url)` wraps.
    unfoldable pub fetch : Bytes → S → Session S
    unfolding attempts_from
    fetch url s = attempts_from ((1 + manager.max_retries url s) % 2 ^ 64) 0 url no_result s
