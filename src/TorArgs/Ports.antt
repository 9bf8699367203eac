-- ===== src/TorArgs/Ports.antt =====
-- src/tor_proxy_manager.cpp: the endpoints of a proxy list can be used.
use shadow_se.Base.{
  ℕ, ◌≤◌, ◌≡◌, refl, inl, inr, Bool, false, Bool-cases, not, ◌&&◌, Option, none, some, List, [],
  ◌∷◌, within, if◌then◌else◌, All, Bytes, codes, is_empty, arith,
}
use shadow_se.TorPool.{TorEndpoint}
use shadow_se.TorArgs.{
  trim_piece, cut_last, port_of, endpoint_at, endpoint_from, endpoint_of, add_piece, add_pieces,
  parse_proxy_list, split_commas, signed_number,
}

-- A host and a port that a connection can be made to.
abbrev pub IsUsable : TorEndpoint → Type 0
IsUsable ep = (is_empty ep.host ≡ false) × (1 ≤ ep.port) × (ep.port ≤ 65535)

abbrev AllUsable : Option TorEndpoint → Type 0
AllUsable none = Unit
AllUsable (some ep) = IsUsable ep

abbrev PortInRange : Option ℕ → Type 0
PortInRange none = Unit
PortInRange (some port) = (1 ≤ port) × (port ≤ 65535)

port_of-PortInRange : (n : Option (Bool × ℕ)) → PortInRange (port_of n)
unfolding port_of
port_of-PortInRange none = tt
port_of-PortInRange (some (negative, n)) = elim (Bool-cases (not negative && within 1 65535 n)) [
  | inl e ↦ rw e (ground (arith, e), ground (arith, e))
  | inr e ↦ rw e tt
]

is_empty-local :
    (host : Bytes) → is_empty (if is_empty host then codes "127.0.0.1" else host) ≡ false
is_empty-local [] = refl
is_empty-local (c ∷ host) = refl

endpoint_at-IsUsable :
    (host : Bytes) (port : Option ℕ) → PortInRange port → AllUsable (endpoint_at host port)
unfolding endpoint_at
endpoint_at-IsUsable host none h = tt
endpoint_at-IsUsable host (some port) h = (is_empty-local host, h.0, h.1)

endpoint_from-IsUsable : (found : Option (Bytes × Bytes)) → AllUsable (endpoint_from found)
unfolding endpoint_from
endpoint_from-IsUsable none = tt
endpoint_from-IsUsable (some (host, port)) =
    endpoint_at-IsUsable host (port_of (signed_number port))
      (port_of-PortInRange (signed_number port))

endpoint_of-IsUsable : (piece : Bytes) → AllUsable (endpoint_of piece)
unfolding endpoint_of
endpoint_of-IsUsable piece = endpoint_from-IsUsable (cut_last b':' piece)

add_piece-IsUsable :
    (found : Option TorEndpoint) (eps : List TorEndpoint)
    → AllUsable found
    → All IsUsable eps
    → All IsUsable (add_piece found eps)
unfolding add_piece
add_piece-IsUsable none eps h k = k
add_piece-IsUsable (some ep) eps h k = (h, k)

add_pieces-IsUsable :
    (pieces : List Bytes) (eps : List TorEndpoint)
    → All IsUsable eps
    → All IsUsable (add_pieces pieces eps)
unfolding add_pieces
add_pieces-IsUsable [] eps k = k
add_pieces-IsUsable (piece ∷ pieces) eps k = elim (Bool-cases (is_empty (trim_piece piece))) [
  | inl e ↦ rw e (add_pieces-IsUsable pieces eps k)
  | inr e ↦ rw e (
      add_piece-IsUsable (endpoint_of (trim_piece piece)) (add_pieces pieces eps)
        (endpoint_of-IsUsable (trim_piece piece)) (add_pieces-IsUsable pieces eps k))
]

-- Whatever is given on the command line, every endpoint of a proxy list has a host and a port from 1
-- to 65535.
pub parse_proxy_list-IsUsable : (specs : List Bytes) → All IsUsable (parse_proxy_list specs)
unfolding parse_proxy_list
parse_proxy_list-IsUsable [] = tt
parse_proxy_list-IsUsable (spec ∷ specs) =
    add_pieces-IsUsable (split_commas spec) (parse_proxy_list specs)
      (parse_proxy_list-IsUsable specs)
