-- ===== src/Engine/Startup/Endpoints.antt =====
-- src/engine.cpp and src/tor_proxy_manager.cpp: the endpoints of a flag go through the configuration as
-- texts, and the engine reads them again.
use mathlib.Core.List.{reverse, reverse-cons, reverse-append}
use shadow_se.Base.{
  ℕ, ◌≤◌, ◌≡◌, refl, sym, ap, ◌∙◌, true, false, some, List, [], ◌∷◌, ◌++◌, ◌==◌, All, All-append,
  Bytes, codes, is_empty, same_bytes, skip_space, is_space, span_until, arith,
}
use shadow_se.TorPool.{TorEndpoint, no_endpoint}
use shadow_se.Json.Scanner.{not_digit, digits, is_ws}
use shadow_se.Fetcher.{endpoint_key}
use shadow_se.TorArgs.{
  Config, trim_piece, decimal_from, sign_of, signed_number, port_of, endpoint_at, endpoint_from,
  endpoint_of, add_piece, add_pieces, parse_proxy_list, keys_of, set_proxies, parse_tor_flag,
}
use shadow_se.TorArgs.Pieces.{
  Without, is_solid, split_commas-whole, trim_piece-is_solid, is_solid-append, cut_last-append,
  All-reverse,
}
use shadow_se.TorArgs.Hosts.{IsGiven, parse_proxy_list-IsGiven}
use shadow_se.Engine.Startup.{endpoints_of}

-- The text is the number in decimal, as `std::to_string` prints it.
abbrev pub IsPrinted : Bytes → ℕ → Type 0
IsPrinted s n = (All (λ c. not_digit c ≡ false) s) × (is_empty s ≡ false) × (decimal_from 0 s ≡ n)

digits-whole : (s : Bytes) → All (λ c. not_digit c ≡ false) s → (digits s).0 ≡ s
unfolding digits span_until
digits-whole [] h = refl
digits-whole (c ∷ s) h = rw h.0 (ap (λ (t : Bytes). c ∷ t) (digits-whole s h.1))

printed-Without :
    (c : ℕ) (s : Bytes) → not_digit c ≡ true → All (λ c. not_digit c ≡ false) s → Without c s
unfolding not_digit
printed-Without c [] n h = tt
printed-Without c (x ∷ s) n h = (ground (arith, h.0), printed-Without c s n h.1)

sign_of-printed :
    (c : ℕ) (s : Bytes) → not_digit c ≡ false → sign_of (skip_space (c ∷ s)) ≡ (false, c ∷ s)
unfolding sign_of skip_space is_space not_digit
sign_of-printed c s h = ground (arith, h)

pub signed_number-printed : (s : Bytes) (n : ℕ) → IsPrinted s n → signed_number s ≡ some (false, n)
unfolding signed_number
signed_number-printed [] n h = absurd (cc (h.1))
signed_number-printed (c ∷ s) n h =
    rw (sign_of-printed c s h.0.0)
      (rw (digits-whole (c ∷ s) h.0) (ap (λ (n : ℕ). some (false, n)) h.2))

port_of_given : (n : ℕ) → 1 ≤ n → n ≤ 65535 → port_of (some (false, n)) ≡ some n
unfolding port_of
port_of_given n low high = ground arith

endpoint_at_given :
    (host : Bytes) (port : ℕ)
    → is_solid host ≡ true
    → endpoint_at host (some port) ≡ some (record no_endpoint { host = host; port = port })
unfolding endpoint_at is_solid
endpoint_at_given [] port h = absurd (cc)
endpoint_at_given (c ∷ host) port h = refl

is_solid-printed :
    (s : Bytes) → All (λ c. not_digit c ≡ false) s → is_empty s ≡ false → is_solid s ≡ true
unfolding is_solid not_digit is_ws
is_solid-printed [] h k = absurd (cc)
is_solid-printed (c ∷ s) h k = ground (arith, h.0)

solid_nonempty : (s : Bytes) → is_solid s ≡ true → is_empty s ≡ false
unfolding is_solid
solid_nonempty [] h = absurd (cc)
solid_nonempty (c ∷ s) h = refl

reverse-nonempty : (s : Bytes) → is_empty s ≡ false → is_empty (reverse s) ≡ false
reverse-nonempty [] h = absurd (cc)
reverse-nonempty (c ∷ s) h = rw (reverse-cons c s) (append-nonempty (reverse s) c)
  where
    append-nonempty : (t : Bytes) (c : ℕ) → is_empty (t ++ c ∷ []) ≡ false
    append-nonempty [] c = refl
    append-nonempty (x ∷ t) c = refl

-- The endpoints that are given, or those that were configured before.
abbrev pub given_or : List TorEndpoint → List TorEndpoint → List TorEndpoint
given_or before [] = before
given_or before (ep ∷ eps) = ep ∷ eps

module _ (to_string : ℕ → Bytes) where
  -- The end of a written endpoint is a digit.
  key_end-is_solid :
      (host s : Bytes)
      → All (λ c. not_digit c ≡ false) s
      → is_empty s ≡ false
      → is_solid (reverse (host ++ b':' ∷ s)) ≡ true
  key_end-is_solid host s h k = rw (reverse-append host (b':' ∷ s)) (
      rw (reverse-cons b':' s) (
        is_solid-append (reverse s ++ b':' ∷ []) (reverse host) (
          is_solid-append (reverse s) (b':' ∷ []) (
            is_solid-printed (reverse s) (All-reverse (λ c. not_digit c ≡ false) s h)
              (reverse-nonempty s k)))))

  -- An endpoint that is written is read again.
  endpoint_of-key :
      (ep : TorEndpoint)
      → IsGiven ep
      → IsPrinted (to_string ep.port) ep.port
      → endpoint_of (endpoint_key to_string ep) ≡ some ep
  unfolding endpoint_of endpoint_key endpoint_from
  endpoint_of-key ep g p =
      rw
        (cut_last-append b':' ep.host (to_string ep.port)
          (printed-Without b':' (to_string ep.port) (unfold not_digit in refl) p.0))
        (rw (signed_number-printed (to_string ep.port) ep.port p) (
          rw (port_of_given ep.port g.3 g.4)
            (endpoint_at_given ep.host ep.port g.0 ∙ ap some (sym g.2))))

  key-Without :
      (ep : TorEndpoint)
      → IsGiven ep
      → IsPrinted (to_string ep.port) ep.port
      → Without b',' (endpoint_key to_string ep)
  unfolding endpoint_key
  key-Without ep g p =
      All-append (λ (x : ℕ). (x == b',') ≡ false) ep.host (b':' ∷ to_string ep.port) g.1
        (refl, printed-Without b',' (to_string ep.port) (unfold not_digit in refl) p.0)

  trim_piece-key :
      (ep : TorEndpoint)
      → IsGiven ep
      → IsPrinted (to_string ep.port) ep.port
      → trim_piece (endpoint_key to_string ep) ≡ endpoint_key to_string ep
  unfolding endpoint_key
  trim_piece-key ep g p =
      trim_piece-is_solid (ep.host ++ b':' ∷ to_string ep.port)
        (is_solid-append ep.host (b':' ∷ to_string ep.port) g.0)
        (key_end-is_solid ep.host (to_string ep.port) p.0 p.1)

  key_nonempty : (ep : TorEndpoint) → IsGiven ep → is_empty (endpoint_key to_string ep) ≡ false
  unfolding endpoint_key
  key_nonempty ep g =
      solid_nonempty (ep.host ++ b':' ∷ to_string ep.port)
        (is_solid-append ep.host (b':' ∷ to_string ep.port) g.0)

  parse_proxy_list-keys_of :
      (eps : List TorEndpoint)
      → All IsGiven eps
      → All (λ ep. IsPrinted (to_string ep.port) ep.port) eps
      → parse_proxy_list (keys_of to_string eps) ≡ eps
  unfolding parse_proxy_list keys_of add_pieces add_piece
  parse_proxy_list-keys_of [] g p = refl
  parse_proxy_list-keys_of (ep ∷ eps) g p =
      rw (split_commas-whole (endpoint_key to_string ep) (key-Without ep g.0 p.0)) (
        rw (trim_piece-key ep g.0 p.0) (
          rw (key_nonempty ep g.0) (
            rw (endpoint_of-key ep g.0 p.0)
              (ap (λ (eps : List TorEndpoint). ep ∷ eps) (parse_proxy_list-keys_of eps g.1 p.1)))))

  set_proxies-endpoints_of :
      (eps : List TorEndpoint) (cfg : Config)
      → All IsGiven eps
      → All (λ ep. IsPrinted (to_string ep.port) ep.port) eps
      → endpoints_of (set_proxies to_string eps cfg) ≡ given_or (endpoints_of cfg) eps
  unfolding endpoints_of set_proxies
  set_proxies-endpoints_of [] cfg g p = refl
  set_proxies-endpoints_of (ep ∷ eps) cfg g p =
      rw (parse_proxy_list-keys_of eps g.1 p.1) (ap (λ (e : TorEndpoint). e ∷ eps) (sym g.0.2))

  -- The endpoints that an engine starts with are those that a `--tor-proxy` flag names, in their order,
  -- though they go through the configuration as texts; a flag that names none changes nothing. `std::to_string`
  -- prints the ports that are given in decimal.
  pub endpoints_of-parse_tor_flag :
      (value : Bytes) (cfg : Config)
      → All (λ ep. IsPrinted (to_string ep.port) ep.port) (parse_proxy_list (value ∷ []))
      → endpoints_of (parse_tor_flag to_string (codes "--tor-proxy") value cfg).1
        ≡ given_or (endpoints_of cfg) (parse_proxy_list (value ∷ []))
  unfolding parse_tor_flag same_bytes
  endpoints_of-parse_tor_flag value cfg p =
      set_proxies-endpoints_of (parse_proxy_list (value ∷ [])) cfg
        (parse_proxy_list-IsGiven (value ∷ [])) p
