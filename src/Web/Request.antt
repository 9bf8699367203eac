-- ===== src/Web/Request.antt =====
-- src/web_server.cpp: what a request line leads to.
use shadow_se.Base.{
  ℕ, ◌/◌, ◌%◌, ◌≤◌, ◌<◌, ◌≡◌, refl, sym, ◌∙◌, arith, Bool, true, false, not, ◌&&◌, ◌||◌, List, [],
  ◌∷◌, ◌++◌, ◌==◌, if◌then◌else◌, ltb, length, take, length-take, Bytes, IsByte, codes, All,
  same_bytes, cut, has_sub, is_space, span_until, inl, inr, Bool-cases, is_empty, starts_with,
}
use shadow_se.Web.{
  query_of, pieces, first_param, or_empty, page, Scored, method_and_target, split_target, next_word,
  bad_request, serve_path, serve_request, render_page,
}
use shadow_se.Web.Escape.{sent, url_decode-sent, unreserved, hex_of}

length_clipped : (max : ℕ) (s : Bytes) → length (if ltb max (length s) then take max s else s) ≤ max
length_clipped max s = ground (arith, length-take max s)

-- A query is never longer than the limit, whatever the client sends.
pub length-query_of : (max : ℕ) (s : Bytes) → length (query_of max s) ≤ max
unfolding query_of
length-query_of max s = length_clipped max _

no_amp : Bytes → Bool
no_amp [] = true
no_amp (c ∷ s) = not (c == b'&') && no_amp s

pieces-no_amp : (s : Bytes) → no_amp s ≡ true → pieces s ≡ s ∷ []
unfolding pieces no_amp
pieces-no_amp [] h = refl
pieces-no_amp (c ∷ s) h = ground (arith, pieces-no_amp s)

hex_of_ne : (d : ℕ) → d < 16 → hex_of d == b'&' ≡ false
unfolding hex_of
hex_of_ne d h = ground arith

sent-no_amp : (s : Bytes) → All IsByte s → no_amp (sent s) ≡ true
unfolding sent no_amp unreserved
sent-no_amp [] h = refl
sent-no_amp (c ∷ s) (b, h) =
    ground
      (arith, sent-no_amp s h, hex_of_ne (c / 16) (omega arith), hex_of_ne (c % 16) (omega arith))

-- The query that a browser sends from the page's form is decoded to what was typed, if it is no longer than
-- the limit.
pub query_of-sent :
    (max : ℕ) (s : Bytes) → All IsByte s → length s ≤ max → query_of max (codes "q=" ++ sent s) ≡ s
unfolding query_of first_param
query_of-sent max s h short =
    let one : pieces (codes "q=" ++ sent s) ≡ (codes "q=" ++ sent s) ∷ [] =
      pieces-no_amp (codes "q=" ++ sent s) (unfold no_amp in sent-no_amp s h) in
    rw one (unfold starts_with or_empty in rw (url_decode-sent s h) (ground arith))

hex_of_dot : (d : ℕ) → d < 16 → (b'.' == hex_of d) ≡ false
unfolding hex_of
hex_of_dot d h = ground arith

sent-starts_with : (s : Bytes) → starts_with (codes ".") (sent s) ≡ starts_with (codes ".") s
unfolding starts_with sent unreserved
sent-starts_with [] = refl
sent-starts_with (c ∷ s) = ground arith

has_dots : Bytes → Bool
has_dots s = has_sub (codes "..") s

has_dots-cons :
    (c : ℕ) (s : Bytes) → has_dots (c ∷ s) ≡ (b'.' == c && starts_with (codes ".") s || has_dots s)
unfolding has_dots has_sub starts_with
has_dots-cons c s = refl

has_dots-skip : (c : ℕ) (s : Bytes) → (b'.' == c) ≡ false → has_dots (c ∷ s) ≡ has_dots s
has_dots-skip c s h = has_dots-cons c s ∙ rw h refl

reserved_ne : (c : ℕ) → unreserved c ≡ false → (b'.' == c) ≡ false
unfolding unreserved
reserved_ne c h = ground arith

-- The encoding of a text has two dots in a row just where the text has.
sent-has_dots : (s : Bytes) → All IsByte s → has_dots (sent s) ≡ has_dots s
unfolding sent
sent-has_dots [] h = refl
sent-has_dots (c ∷ s) (b, h) =
    let rest = sent-has_dots s h in
    elim (Bool-cases (unreserved c)) [
      | inl plain ↦
          rw plain
            (has_dots-cons c (sent s) ∙ rw (sent-starts_with s, rest) (sym (has_dots-cons c s)))
      | inr coded ↦
          let left = rest ∙ sym (has_dots-skip c s (reserved_ne c coded)) in
          elim (Bool-cases (c == b' ')) [
            | inl blank ↦ rw (coded, blank) (has_dots-skip b'+' (sent s) refl ∙ left)
            | inr other ↦
                rw (coded, other)
                  (has_dots-skip b'%' _ refl
                    ∙ has_dots-skip (hex_of (c / 16)) _ (hex_of_dot (c / 16) (omega arith))
                    ∙ has_dots-skip (hex_of (c % 16)) _ (hex_of_dot (c % 16) (omega arith))
                    ∙ left)
          ]
    ]

hex_of_solid : (d : ℕ) → d < 16 → is_space (hex_of d) ≡ false
unfolding hex_of is_space
hex_of_solid d h = ground arith

unreserved_solid : (c : ℕ) → unreserved c ≡ true → is_space c ≡ false
unfolding unreserved is_space
unreserved_solid c h = ground arith

sent-solid : (s : Bytes) → All IsByte s → All (λ c. is_space c ≡ false) (sent s)
unfolding sent
sent-solid [] h = tt
sent-solid (c ∷ s) (b, h) =
    let rest = sent-solid s h in
    elim (Bool-cases (unreserved c)) [
      | inl plain ↦ rw plain (unreserved_solid c plain, rest)
      | inr coded ↦ elim (Bool-cases (c == b' ')) [
        | inl blank ↦ rw (coded, blank) (unfold is_space in refl, rest)
        | inr other ↦
            rw (coded, other)
              (
                unfold is_space in refl,
                (hex_of_solid (c / 16) (omega arith), (hex_of_solid (c % 16) (omega arith), rest)),
              )
      ]
    ]

span_until-solid :
    (s r : Bytes)
    → All (λ c. is_space c ≡ false) s
    → span_until is_space (s ++ b' ' ∷ r) ≡ (s, b' ' ∷ r)
unfolding span_until
span_until-solid [] r h = unfold is_space in refl
span_until-solid (c ∷ s) r (b, h) = rw (b, span_until-solid s r h) refl

-- The request line of a browser that sends the page's form.
abbrev pub form_line : Bytes → Bytes
form_line s = codes "GET /?q=" ++ (sent s ++ codes " HTTP/1.1")

method_and_target-form_line :
    (s : Bytes)
    → All IsByte s
    → method_and_target (form_line s) ≡ (codes "GET", codes "/?q=" ++ sent s)
unfolding method_and_target next_word span_until is_space
method_and_target-form_line s h =
    let word = span_until-solid (sent s) (codes "HTTP/1.1") (sent-solid s h) in rw word refl

module _ {Score : Type 0} (show_score : Score → Bytes) (show_count : ℕ → Bytes)
    (search : Bytes → List (Scored Score)) (max : ℕ) (title : Bytes) where
  -- What is typed into the page's form, if it is no longer than the limit, is answered by the page for this
  -- very text, with the results of its search, or with none for an empty text; but a text with two dots in a
  -- row is answered by 400.
  pub serve_request-form_line :
      (s : Bytes)
      → All IsByte s
      → length s ≤ max
      → serve_request show_score show_count search max title (form_line s) ≡ (
          if has_sub (codes "..") s
          then bad_request
          else page
              (render_page show_score show_count title s (if is_empty s then [] else search s)))
  unfolding serve_request serve_path same_bytes
  serve_request-form_line s h short =
      let target = method_and_target-form_line s h in
      let dots : has_sub (codes "..") (codes "/?q=" ++ sent s) ≡ has_sub (codes "..") s =
        unfold has_dots has_sub starts_with in sent-has_dots s h in
      let halves : split_target (codes "/?q=" ++ sent s) ≡ (codes "/", codes "q=" ++ sent s) =
        unfold split_target cut in refl in
      rw (target, dots, halves, query_of-sent max s h short) refl
