-- ===== src/Admin/Dashboard/Secret.antt =====
-- src/admin.cpp: what a client learns without the token.
use shadow_se.Base.{ℕ, ◌≡◌, ◌≢◌, refl, Option, none, some, List, [], Bytes, codes}
use shadow_se.Web.{read_head, request_line, method_and_target, split_target, pieces, first_param}
use shadow_se.Index.{InvertedIndex}
use shadow_se.Admin.{Reply, alive, unauthorized, dashboard, reply_to, handle_admin}
use shadow_se.Admin.Access.{reply_to-dashboard}
use shadow_se.Admin.Dashboard.{Glance, AdminOptions, render_dashboard, send_reply, answer_admin}

-- The first `t=` parameter of a request, given its head.
abbrev pub token_sent : Bytes → Option Bytes
token_sent head =
    first_param (codes "t=") (pieces (split_target (method_and_target (request_line head)).1).1)

module _ (show_count : ℕ → Bytes) {Time : Type 0} (show_time : Time → Bytes)
    (show_average : InvertedIndex → Bytes) (opts : AdminOptions) (send : ℕ → ℕ → Option ℕ) where
  reply-secret :
      (r : Reply) (g g' : Glance Time)
      → r ≢ dashboard
      → send_reply show_count show_time show_average opts send g (some r)
        ≡ send_reply show_count show_time show_average opts send g' (some r)
  unfolding send_reply render_dashboard
  reply-secret alive g g' h = refl
  reply-secret unauthorized g g' h = refl
  reply-secret dashboard g g' h = absurd (h refl)

  head-secret :
      (found : Option Bytes) (g g' : Glance Time)
      → ((head : Bytes) → found ≡ some head → token_sent head ≢ some opts.token)
      → send_reply show_count show_time show_average opts send g
          (elim found [ none ↦ none | some head ↦ some (reply_to opts.token head) ])
        ≡ send_reply show_count show_time show_average opts send g'
            (elim found [ none ↦ none | some head ↦ some (reply_to opts.token head) ])
  unfolding send_reply
  head-secret none g g' h = refl
  head-secret (some head) g g' h =
      reply-secret (reply_to opts.token head) g g'
        (λ e. h head refl ((reply_to-dashboard opts.token head).0 e).3)

  -- A client whose request does not have the token as its first `t=` parameter receives the same bytes
  -- whatever the engine, the activity log, the onion address and the state of Tor are, and however its
  -- request comes in and the answer goes out.
  pub answer_admin-secret :
      (chunks : List Bytes) (g g' : Glance Time)
      → ((head : Bytes) → read_head 8192 [] chunks ≡ some head → token_sent head ≢ some opts.token)
      → answer_admin show_count show_time show_average opts send chunks g
        ≡ answer_admin show_count show_time show_average opts send chunks g'
  unfolding answer_admin handle_admin
  answer_admin-secret chunks g g' h = head-secret (read_head 8192 [] chunks) g g' h
