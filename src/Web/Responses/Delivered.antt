-- ===== src/Web/Responses/Delivered.antt =====
-- src/web_server.cpp: what a client receives.
use shadow_se.Base.{ℕ, ◌≡◌, refl, Option, none, some, List, [], ◌++◌, Bytes}
use shadow_se.Web.{Scored, Response, status, handle_client}
use shadow_se.Web.Responses.{status_text, body_text, head_for, send_response, reply, answer_client}
use shadow_se.Wire.Delivery.{IsProgressing, send_both-delivered}

-- The whole text of a response; nothing, where there is none.
abbrev pub response_text : (ℕ → Bytes) → Option Response → Bytes
response_text show_count none = []
response_text show_count (some r) =
    head_for show_count (status r) (status_text r) (body_text r) ++ body_text r

module _ (show_count : ℕ → Bytes) (send : ℕ → ℕ → Option ℕ) where
  reply-delivered :
      (r : Option Response)
      → IsProgressing send
      → reply show_count send r ≡ response_text show_count r
  unfolding reply send_response
  reply-delivered none go = refl
  reply-delivered (some r) go = send_both-delivered send 0 _ _ go

  -- If every call of `send` takes at least one byte of those that it is offered, a client receives the
  -- response to its request whole: the header, with the length of the body, and the body; it receives nothing
  -- at all if the request is malformed or too long.
  pub answer_client-delivered :
      {Score : Type 0} (show_score : Score → Bytes) (search : Bytes → List (Scored Score))
      (max_request max : ℕ) (title : Bytes) (chunks : List Bytes)
      → IsProgressing send
      → answer_client show_count show_score send search max_request max title chunks
        ≡ response_text show_count
            (handle_client show_score show_count search max_request max title chunks)
  unfolding answer_client
  answer_client-delivered show_score search max_request max title chunks go =
      reply-delivered (handle_client show_score show_count search max_request max title chunks) go
