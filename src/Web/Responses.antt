-- ===== src/Web/Responses.antt =====
-- src/web_server.cpp: the bytes of a response, and a client from its request to what it is sent.
pub mod Delivered
use shadow_se.Base.{ℕ, Option, none, some, List, [], ◌∷◌, ◌++◌, length, Bytes, codes}
use shadow_se.Web.{
  Scored, Response, not_allowed, bad_request, not_found, page, status, handle_client,
}
use shadow_se.Wire.{send_both}

abbrev pub privacy_headers : Bytes
privacy_headers =
    codes
      "Cache-Control: no-store, no-cache, must-revalidate\r\nPragma: no-cache\r\nX-Content-Type-Options: nosniff\r\nX-Frame-Options: DENY\r\nReferrer-Policy: no-referrer\r\nContent-Security-Policy: default-src 'none'; style-src 'unsafe-inline'; script-src 'none'; form-action 'self'; base-uri 'none'; frame-ancestors 'none'; img-src 'none'; media-src 'none'; object-src 'none'\r\nPermissions-Policy: interest-cohort=(), browsing-topics=()\r\nClear-Site-Data: \"cache\",\"cookies\",\"storage\"\r\nCross-Origin-Opener-Policy: same-origin\r\n"

unfoldable pub status_text : Response → Bytes
status_text not_allowed = codes "Method Not Allowed"
status_text bad_request = codes "Bad Request"
status_text not_found = codes "Not Found"
status_text (page body) = codes "OK"

unfoldable pub body_text : Response → Bytes
body_text not_allowed = codes "<html><body>GET only.</body></html>"
body_text bad_request = codes "<html><body>Bad request.</body></html>"
body_text not_found =
    codes "<html><body><h1>404</h1><p>Not found. Try <a href=\"/\">/</a>.</p></body></html>"
body_text (page body) = body

abbrev pub busy_body : Bytes
busy_body = codes "<html><body>Busy - try again in a moment.</body></html>"

module _ (show_count : ℕ → Bytes) where
  -- The header of `sendResponse`.
  unfoldable pub head_for : ℕ → Bytes → Bytes → Bytes
  head_for code reason body =
      codes "HTTP/1.1 "
      ++ (show_count code
          ++ (b' '
              ∷ (reason
                  ++ (codes "\r\nContent-Type: text/html; charset=utf-8\r\n"
                      ++ (privacy_headers
                          ++ (codes "Content-Length: "
                              ++ (show_count (length body)
                                  ++ codes "\r\nConnection: close\r\n\r\n")))))))

  -- `sendResponse`, from the `k`-th call of `send` on.
  unfoldable pub send_response : (ℕ → ℕ → Option ℕ) → ℕ → ℕ → Bytes → Bytes → Bytes
  send_response send k code reason body = send_both send k (head_for code reason body) body

  unfoldable pub reply : (ℕ → ℕ → Option ℕ) → Option Response → Bytes
  reply send none = []
  reply send (some r) = send_response send 0 (status r) (status_text r) (body_text r)

  module _ {Score : Type 0} (show_score : Score → Bytes) where
    -- `handleClient` with what goes out.
    unfoldable pub answer_client :
        (ℕ → ℕ → Option ℕ) → (Bytes → List (Scored Score)) → ℕ → ℕ → Bytes → List Bytes → Bytes
    answer_client send search max_request max title chunks =
        reply send (handle_client show_score show_count search max_request max title chunks)
