-- ===== src/Tokenizer/Rescan.antt =====
-- Tokenizing a text that is made of tokens gives the tokens back: the terms that the index stores
-- can be searched for as they stand.
use shadow_se.Base.{
  ℕ, zero, suc, ◌≤◌, List, [], ◌∷◌, ◌++◌, length, Bytes, ◌≡◌, ◌≢◌, refl, sym, ap, ◌∙◌, arith, All,
  append_assoc, append-nil,
}
use shadow_se.Tokenizer.{
  decode_utf8, encode, is_token_character, flush, take_codepoint, scan, tokenize,
}
use shadow_se.Tokenizer.RoundTrip.{decode_utf8-encode, length-decode_utf8}
use shadow_se.Tokenizer.Words.{IsFolded, IsWord, nil, cons, IsToken, tokenize-IsToken}

-- With a round for each byte the fuel does not matter.
scan_fuel :
    (f g : ℕ) (text : Bytes) (tokens : List Bytes) (w : Bytes)
    → length text ≤ f
    → length text ≤ g
    → scan f text tokens w ≡ scan g text tokens w
unfolding scan
scan_fuel zero zero [] tokens w h k = refl
scan_fuel zero (suc g) [] tokens w h k = refl
scan_fuel (suc f) zero [] tokens w h k = refl
scan_fuel (suc f) (suc g) [] tokens w h k = refl
scan_fuel zero g (c ∷ s) tokens w h k = absurd (omega arith)
scan_fuel (suc f) zero (c ∷ s) tokens w h k = absurd (omega arith)
scan_fuel (suc f) (suc g) (c ∷ s) tokens w h k =
    let (cp, rest) = decode_utf8 (c ∷ s) in
    scan_fuel f g rest (take_codepoint cp tokens w).0 (take_codepoint cp tokens w).1
      (omega (arith, length-decode_utf8 c s)) (omega (arith, length-decode_utf8 c s))

-- The loop with enough fuel.
run : Bytes → List Bytes → Bytes → List Bytes
run text = scan (length text) text

-- One round of it, at a code point that is there.
run_round :
    (text : Bytes) (cp : ℕ) (rest : Bytes) (tokens : List Bytes) (w : Bytes)
    → text ≢ []
    → decode_utf8 text ≡ (cp, rest)
    → run text tokens w ≡ run rest (take_codepoint cp tokens w).0 (take_codepoint cp tokens w).1
unfolding run scan
run_round [] cp rest tokens w ne e = absurd (ne refl)
run_round (c ∷ s) cp rest tokens w ne e =
    let short : length rest ≤ length s = rw e at (length-decode_utf8 c s) in
    let t = take_codepoint cp tokens w in
    ap (λ (d : ℕ × Bytes). let u = take_codepoint d.0 tokens w in scan (length s) d.1 u.0 u.1) e
    ∙ scan_fuel (length s) (length rest) rest t.0 t.1 short (omega arith)

encode-append-ne-nil : (cp : ℕ) (rest : Bytes) → encode cp ++ rest ≢ []
unfolding encode
encode-append-ne-nil cp rest = ground arith

take_codepoint_folded :
    (cp : ℕ) (tokens : List Bytes) (w : Bytes)
    → IsFolded cp
    → take_codepoint cp tokens w ≡ (tokens, w ++ encode cp)
unfolding take_codepoint
take_codepoint_folded cp tokens w f = rw (f.token, f.folded)

take_codepoint_space :
    (tokens : List Bytes) (w : Bytes) → take_codepoint b' ' tokens w ≡ (flush tokens w, [])
unfolding take_codepoint is_token_character
take_codepoint_space tokens w = refl

decode_utf8_space : (rest : Bytes) → decode_utf8 (b' ' ∷ rest) ≡ (b' ', rest)
unfolding decode_utf8
decode_utf8_space rest = refl

run-space :
    (rest : Bytes) (tokens : List Bytes) (w : Bytes)
    → run (b' ' ∷ rest) tokens w ≡ run rest (flush tokens w) []
run-space rest tokens w =
    run_round (b' ' ∷ rest) b' ' rest tokens w (λ e. cc) (decode_utf8_space rest)
    ∙ rw take_codepoint_space

run-encode :
    (cp : ℕ) (rest : Bytes) (tokens : List Bytes) (w : Bytes)
    → IsFolded cp
    → run (encode cp ++ rest) tokens w ≡ run rest tokens (w ++ encode cp)
run-encode cp rest tokens w f =
    run_round (encode cp ++ rest) cp rest tokens w (encode-append-ne-nil cp rest)
      (decode_utf8-encode cp rest f.scalar)
    ∙ rw (take_codepoint_folded cp tokens w f)

run-IsWord :
    {v : Bytes} (rest : Bytes) (tokens : List Bytes) (w : Bytes)
    → IsWord v
    → run (v ++ rest) tokens w ≡ run rest tokens (w ++ v)
run-IsWord rest tokens w nil = rw append-nil
run-IsWord rest tokens w (cons {cp} {rest = r} f t) = rw append_assoc (
    run-encode cp (r ++ rest) tokens w f
    ∙ run-IsWord rest tokens (w ++ encode cp) t
    ∙ rw append_assoc)

-- The tokens, each behind by a space.
abbrev pub unwords : List Bytes → Bytes
unwords [] = []
unwords (w ∷ ws) = w ++ b' ' ∷ unwords ws

flush_token :
    (tokens : List Bytes) (w : Bytes) (ws : List Bytes)
    → w ≢ []
    → flush tokens w ++ ws ≡ tokens ++ w ∷ ws
unfolding flush
flush_token tokens [] ws ne = absurd (ne refl)
flush_token tokens (c ∷ cs) ws ne = append_assoc tokens ((c ∷ cs) ∷ []) ws

run-unwords : (ws tokens : List Bytes) → All IsToken ws → run (unwords ws) tokens [] ≡ tokens ++ ws
unfolding run scan flush
run-unwords [] tokens h = sym (append-nil tokens)
run-unwords (w ∷ ws) tokens h =
    run-IsWord (b' ' ∷ unwords ws) tokens [] h.0.0
    ∙ run-space (unwords ws) tokens w
    ∙ run-unwords ws (flush tokens w) h.1
    ∙ flush_token tokens w ws h.0.1

-- Any list of tokens, written out with spaces, is read back as it is.
pub tokenize-unwords : (ws : List Bytes) → All IsToken ws → tokenize (unwords ws) ≡ ws
unfolding tokenize run
tokenize-unwords ws h = run-unwords ws [] h

-- The tokens of any text, written out with a space behind each, are tokenized to the same tokens
-- again.
pub tokenize-tokenize : (text : Bytes) → tokenize (unwords (tokenize text)) ≡ tokenize text
tokenize-tokenize text = tokenize-unwords (tokenize text) (tokenize-IsToken text)
