-- ===== src/TorProxy/Reachable.antt =====
-- src/tor_proxy.cpp: what a probe says, and that it leaves no socket behind.
use shadow_se.Base.{
  ℕ, ◌+◌, ◌==◌, ◌≡◌, Bool, true, false, ◌&&◌, Option, none, some, List, [], ◌∷◌, if◌then◌else◌,
  Bytes, same_bytes, arith,
}
use shadow_se.TorProxy.{
  up, down, Waited, ready, timed_out, select_failed, Answers, Call, opened, closed, socks_version,
  no_auth, probe_tor,
}

abbrev pub opens : List Call → ℕ
opens [] = 0
opens (opened ∷ calls) = 1 + opens calls
opens (_ ∷ calls) = opens calls

abbrev pub closes : List Call → ℕ
closes [] = 0
closes (closed ∷ calls) = 1 + closes calls
closes (_ ∷ calls) = closes calls

abbrev no_error : Option Bytes → Bool
no_error none = true
no_error (some why) = false

abbrev is_ready : Waited → Bool
is_ready ready = true
is_ready timed_out = false
is_ready (select_failed why) = false

-- A peer that can be connected to in time, takes the greeting and accepts it without authentication.
abbrev pub is_reachable : Answers → Bool
is_reachable a =
    no_error a.socket_error
    && a.is_address
    && no_error a.connect_error
    && is_ready a.waited
    && no_error a.refused
    && a.sent == 3
    && same_bytes a.received (socks_version ∷ no_auth ∷ [])

module _ (show_count : ℕ → Bytes) (host : Bytes) (port timeout : ℕ) where
  -- Whatever the system answers, the probe says up exactly if the peer is reachable, and down otherwise,
  -- never unknown; and it closes each socket that it opened.
  pub probe_tor-IsReachable :
      (a : Answers)
      → ((probe_tor show_count host port timeout a).0.status
          ≡ (if is_reachable a then up else down))
        × (closes (probe_tor show_count host port timeout a).1
            ≡ opens (probe_tor show_count host port timeout a).1)
  unfolding probe_tor
  probe_tor-IsReachable a = ground arith
