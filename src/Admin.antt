-- ===== src/Admin.antt =====
-- src/admin.cpp: the activity log, the admin token, and which request sees the dashboard. The page of
-- the dashboard, the sockets and the clock are not modelled; `read_head` and the split of a request
-- line are the web server's code, repeated in this file of the source.
pub mod Log
pub mod Access
pub mod Dashboard
use shadow_se.Base.{
  ℕ, zero, suc, ◌+◌, ◌/◌, ◌%◌, Bool, true, false, not, ◌&&◌, Option, none, some, List, [], ◌∷◌,
  ◌++◌, ltb, ◌==◌, if◌then◌else◌, length, Bytes, codes, same_bytes, is_empty, starts_with, has_sub,
}
use shadow_se.Web.{read_head, request_line, method_and_target, split_target, pieces, first_param}

pub record ActivityEvent (Time : Type 0) : Type 0 where
  pub time : Time
  pub kind : Bytes
  pub url : Bytes
  pub text : Bytes

pub record ActivityLog (Time : Type 0) : Type 0 where
  pub events : List (ActivityEvent Time)
  pub cap : ℕ

module _ {Time : Type 0} where
  -- The constructor.
  unfoldable pub new_log : ℕ → ActivityLog Time
  new_log capacity = record { events = []; cap = if capacity == 0 then 1 else capacity }

  -- `while (events_.size() > cap_) events_.pop_front();`
  unfoldable pub pop_front_while : ℕ → List (ActivityEvent Time) → List (ActivityEvent Time)
  pop_front_while cap [] = []
  pop_front_while cap (e ∷ es) =
      let rest = pop_front_while cap es in if ltb cap (length (e ∷ es)) then rest else e ∷ es

  unfoldable pub add : ActivityEvent Time → ActivityLog Time → ActivityLog Time
  add ev log = record log { events = pop_front_while log.cap (log.events ++ ev ∷ []) }

-- A character of "0123456789abcdef".
unfoldable pub hex_char : ℕ → ℕ
hex_char d = if ltb d 10 then d + b'0' else d + 87

unfoldable pub to_hex : Bytes → Bytes
unfolding hex_char
to_hex [] = []
to_hex (c ∷ bytes) = hex_char (c / 16) ∷ hex_char (c % 16) ∷ to_hex bytes

-- The constructor's choice of the token, given the 16 random bytes.
unfoldable pub choose_token : Bytes → Bytes → Bytes
choose_token random configured = if is_empty configured then to_hex random else configured

-- The loop of the comparison.
unfoldable pub compare_bytes : Bool → Bytes → Bytes → Bool
compare_bytes same (x ∷ t) (y ∷ token) = compare_bytes (same && x == y) t token
compare_bytes same [] token = same
compare_bytes same (x ∷ t) [] = same

unfoldable pub token_matches : Bytes → Bytes → Bool
token_matches token t = compare_bytes (length t == length token) t token

-- The loop over the query: the first `t=` decides.
unfoldable pub authorized_by : Bytes → Option Bytes → Bool
unfolding token_matches
authorized_by token none = false
authorized_by token (some t) = token_matches token t

unfoldable pub authorized : Bytes → Bytes → Bytes → Bool
unfolding authorized_by
authorized token method target =
    let (path, query) = split_target target in
    same_bytes method (codes "GET")
    && starts_with (codes "/") target
    && not (has_sub (codes "..") target)
    && same_bytes path (codes "/")
    && authorized_by token (first_param (codes "t=") (pieces query))

pub data Reply : Type 0 where
  alive unauthorized dashboard : Reply

-- `handleClient` behind the reading.
unfoldable pub reply_to : Bytes → Bytes → Reply
reply_to token head =
    let (method, target) = method_and_target (request_line head) in
    if same_bytes method (codes "GET") && starts_with (codes "/healthz") target
    then alive
    else if authorized token method target
    then dashboard
    else unauthorized

unfoldable pub handle_admin : Bytes → List Bytes → Option Reply
handle_admin token chunks = elim (read_head 8192 [] chunks) [
  | none ↦ none
  | some head ↦ some (reply_to token head)
]
