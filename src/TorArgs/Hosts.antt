-- ===== src/TorArgs/Hosts.antt =====
-- src/tor_proxy_manager.cpp: the endpoints of a proxy list have hosts that can be written and read again.
use shadow_se.Base.{
  ℕ, ◌≤◌, ◌≡◌, refl, sym, ap, ◌∙◌, subst, inl, inr, Bool, true, Bool-cases, not, ◌&&◌, Option, none,
  some, List, [], ◌∷◌, ◌++◌, ◌==◌, ==_iff, within, if◌then◌else◌, All, Bytes, is_empty, arith,
}
use shadow_se.TorPool.{TorEndpoint, no_endpoint}
use shadow_se.TorArgs.{
  trim_piece, cut_last, signed_number, port_of, endpoint_at, endpoint_from, endpoint_of, add_piece,
  add_pieces, parse_proxy_list, split_commas,
}
use shadow_se.TorArgs.Pieces.{
  Without, is_solid, split_commas-Without, trim_piece-Without, is_solid-trim_piece,
}

-- A host that stands in front of its colon as it was given, or the default.
abbrev pub IsHost : Bytes → Type 0
IsHost host = (is_solid host ≡ true) × Without b',' host

abbrev pub IsGiven : TorEndpoint → Type 0
IsGiven ep =
    (is_solid ep.host ≡ true)
    × Without b',' ep.host
    × (ep ≡ record no_endpoint { host = ep.host; port = ep.port })
    × (1 ≤ ep.port)
    × (ep.port ≤ 65535)

abbrev AllGiven : Option TorEndpoint → Type 0
AllGiven none = Unit
AllGiven (some ep) = IsGiven ep

abbrev PortInRange : Option ℕ → Type 0
PortInRange none = Unit
PortInRange (some port) = (1 ≤ port) × (port ≤ 65535)

port_of-InRange : (n : Option (Bool × ℕ)) → PortInRange (port_of n)
unfolding port_of
port_of-InRange none = tt
port_of-InRange (some (negative, n)) = elim (Bool-cases (not negative && within 1 65535 n)) [
  | inl e ↦ rw e (ground (arith, e), ground (arith, e))
  | inr e ↦ rw e tt
]

-- The text was cut at the byte.
abbrev CutAt : ℕ → Bytes → Option (Bytes × Bytes) → Type 0
CutAt c s none = Unit
CutAt c s (some r) = s ≡ r.0 ++ c ∷ r.1

cut_step :
    (c x : ℕ) (s : Bytes) (r : Option (Bytes × Bytes))
    → CutAt c s r
    → CutAt c (x ∷ s) (elim r [
      | some (before, behind) ↦ some (x ∷ before, behind)
      | none ↦ if x == c then some ([], s) else none
    ])
cut_step c x s (some r) h = ap (λ (t : Bytes). x ∷ t) h
cut_step c x s none h = elim (Bool-cases (x == c)) [
  | inl e ↦ rw e (ap (λ (y : ℕ). y ∷ s) ((==_iff x c).0 e))
  | inr e ↦ rw e tt
]

cut_last-CutAt : (c : ℕ) (s : Bytes) → CutAt c s (cut_last c s)
unfolding cut_last
cut_last-CutAt c [] = tt
cut_last-CutAt c (x ∷ s) = cut_step c x s (cut_last c s) (cut_last-CutAt c s)

Without-prefix : (c : ℕ) (s t : Bytes) → Without c (s ++ t) → Without c s
Without-prefix c [] t h = tt
Without-prefix c (x ∷ s) t h = (h.0, Without-prefix c s t h.1)

is_solid-prefix : (c : ℕ) (s t : Bytes) → is_solid ((c ∷ s) ++ t) ≡ true → is_solid (c ∷ s) ≡ true
unfolding is_solid
is_solid-prefix c s t h = h

-- What stands in front of the colon, or the default.
endpoint_at-AllGiven :
    (host behind s : Bytes) (port : Option ℕ)
    → PortInRange port
    → s ≡ host ++ b':' ∷ behind
    → is_solid s ≡ true
    → Without b',' s
    → AllGiven (endpoint_at host port)
unfolding endpoint_at
endpoint_at-AllGiven host behind s none p e h k = tt
endpoint_at-AllGiven [] behind s (some port) p e h k =
    unfold is_solid in (refl, ground arith, refl, p.0, p.1)
endpoint_at-AllGiven (c ∷ host) behind s (some port) p e h k = (
  is_solid-prefix c host (b':' ∷ behind) (ap is_solid (sym e) ∙ h),
  Without-prefix b',' (c ∷ host) (b':' ∷ behind) (subst (Without b',') e k),
  refl,
  p.0,
  p.1,
)

endpoint_from-AllGiven :
    (s : Bytes) (r : Option (Bytes × Bytes))
    → CutAt b':' s r
    → is_solid s ≡ true
    → Without b',' s
    → AllGiven (endpoint_from r)
unfolding endpoint_from
endpoint_from-AllGiven s none e h k = tt
endpoint_from-AllGiven s (some (host, port)) e h k =
    endpoint_at-AllGiven host port s (port_of (signed_number port))
      (port_of-InRange (signed_number port)) e h k

add_piece-IsGiven :
    (found : Option TorEndpoint) (eps : List TorEndpoint)
    → AllGiven found
    → All IsGiven eps
    → All IsGiven (add_piece found eps)
unfolding add_piece
add_piece-IsGiven none eps h k = k
add_piece-IsGiven (some ep) eps h k = (h, k)

add_pieces-IsGiven :
    (pieces : List Bytes) (eps : List TorEndpoint)
    → All (Without b',') pieces
    → All IsGiven eps
    → All IsGiven (add_pieces pieces eps)
unfolding add_pieces endpoint_of
add_pieces-IsGiven [] eps h k = k
add_pieces-IsGiven (piece ∷ pieces) eps h k = elim (Bool-cases (is_empty (trim_piece piece))) [
  | inl e ↦ rw e (add_pieces-IsGiven pieces eps h.1 k)
  | inr e ↦ rw e (
      add_piece-IsGiven (endpoint_of (trim_piece piece)) (add_pieces pieces eps)
        (endpoint_from-AllGiven (trim_piece piece) (cut_last b':' (trim_piece piece))
          (cut_last-CutAt b':' (trim_piece piece)) (is_solid-trim_piece piece e)
          (trim_piece-Without b',' piece h.0))
        (add_pieces-IsGiven pieces eps h.1 k))
]

pub parse_proxy_list-IsGiven : (specs : List Bytes) → All IsGiven (parse_proxy_list specs)
unfolding parse_proxy_list
parse_proxy_list-IsGiven [] = tt
parse_proxy_list-IsGiven (spec ∷ specs) =
    add_pieces-IsGiven (split_commas spec) (parse_proxy_list specs) (split_commas-Without spec)
      (parse_proxy_list-IsGiven specs)
