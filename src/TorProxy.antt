-- ===== src/TorProxy.antt =====
-- src/tor_proxy.cpp: the probe of a SOCKS5 port. What the calls of the system answer is a record; an error
-- is its text. The trace holds the calls that matter for the socket.
pub mod Reachable
use shadow_se.Base.{
  ℕ, ◌==◌, Bool, true, false, not, Option, none, some, List, [], ◌∷◌, ◌++◌, if◌then◌else◌, Bytes,
  codes, same_bytes,
}

pub data TorStatus : Type 0 where
  up down unknown : TorStatus

pub record TorProbeResult : Type 0 where
  pub status : TorStatus
  pub detail : Bytes
  pub elapsed : ℕ

pub data Waited : Type 0 where
  ready : Waited
  timed_out : Waited
  select_failed : Bytes → Waited

-- `connect_error` is `none` also while the connection is in progress, `sent` is the number of bytes that
-- `send` took, and `received` holds what `recv` read of two bytes at most.
pub record Answers : Type 0 where
  pub socket_error : Option Bytes
  pub is_address : Bool
  pub connect_error : Option Bytes
  pub waited : Waited
  pub refused : Option Bytes
  pub sent : ℕ
  pub received : Bytes
  pub elapsed : ℕ

pub data Call : Type 0 where
  opened closed connected : Call
  greeted : Bytes → Call

abbrev pub socks_version : ℕ
socks_version = 5

abbrev pub no_auth : ℕ
no_auth = 0

abbrev pub greeting : Bytes
greeting = socks_version ∷ 1 ∷ no_auth ∷ []

module _ (show_count : ℕ → Bytes) (host : Bytes) (port timeout : ℕ) (answers : Answers) where
  unfoldable pub down_with : Bytes → TorProbeResult
  down_with detail = record { status = down; detail = detail; elapsed = answers.elapsed }

  -- The answer to the greeting, on a socket that is closed by then.
  unfoldable pub judge : Bytes → TorProbeResult
  judge received =
      let is_socks5 = same_bytes received (socks_version ∷ no_auth ∷ []) in
      record {
        status = if is_socks5 then up else down;
        detail =
            if is_socks5
            then codes "SOCKS5 daemon reachable at " ++ (host ++ (b':' ∷ show_count port))
            else codes "peer did not answer a valid SOCKS5 greeting";
        elapsed = answers.elapsed;
      }

  unfoldable pub greet : TorProbeResult × List Call
  unfolding down_with judge
  greet =
      if not (answers.sent == 3)
      then (down_with (codes "SOCKS5 greeting send failed"), greeted greeting ∷ closed ∷ [])
      else (judge answers.received, greeted greeting ∷ closed ∷ [])

  unfoldable pub after_refusal : Option Bytes → TorProbeResult × List Call
  unfolding down_with greet
  after_refusal (some why) = (down_with (codes "connect() refused: " ++ why), closed ∷ [])
  after_refusal none = greet

  unfoldable pub after_wait : Waited → TorProbeResult × List Call
  unfolding down_with after_refusal
  after_wait timed_out = (
    down_with (codes "connection timed out (" ++ (show_count timeout ++ codes " ms)")),
    closed ∷ [],
  )
  after_wait (select_failed why) = (down_with (codes "select() failed: " ++ why), closed ∷ [])
  after_wait ready = after_refusal answers.refused

  unfoldable pub after_connect : Option Bytes → TorProbeResult × List Call
  unfolding down_with after_wait
  after_connect (some why) =
      (down_with (codes "connect() failed: " ++ why), connected ∷ closed ∷ [])
  after_connect none =
      let (result, calls) = after_wait answers.waited in (result, connected ∷ calls)

  unfoldable pub after_socket : Option Bytes → TorProbeResult × List Call
  unfolding down_with after_connect
  after_socket (some why) = (down_with (codes "socket(): " ++ why), [])
  after_socket none =
      let (result, calls) = after_connect answers.connect_error in
      if not answers.is_address
      then (down_with (codes "invalid proxy host: " ++ host), opened ∷ closed ∷ [])
      else (result, opened ∷ calls)

  unfoldable pub probe_tor : TorProbeResult × List Call
  unfolding after_socket
  probe_tor = after_socket answers.socket_error
