-- ===== src/Tokenizer.antt =====
-- src/tokenizer.cpp. An offset into the text is the rest of the text from it. Masks and shifts on a
-- byte are written with `/` and `%`.
pub mod RoundTrip
pub mod Words
pub mod Rescan
use shadow_se.Base.{
  ℕ, zero, suc, ◌+◌, ◌*◌, ◌/◌, ◌%◌, Bool, true, false, not, ◌&&◌, ◌||◌, Option, none, some, List,
  [], ◌∷◌, ◌++◌, ltb, leb, ◌==◌, within, if◌then◌else◌, length, Bytes,
}

-- What `decodeUtf8` returns for a malformed sequence.
abbrev pub invalid : ℕ
invalid = 0xFFFFFFFF

-- For a lead byte above ASCII, the continuation bytes that follow and its own bits.
unfoldable pub lead : ℕ → Option (ℕ × ℕ)
lead c0 =
    if c0 / 32 == 6
    then some (1, c0 % 32)
    else if c0 / 16 == 14
    then some (2, c0 % 16)
    else if c0 / 8 == 30
    then some (3, c0 % 8)
    else none

-- The loop over the continuation bytes; `none` for a truncated or a bad one, which the source
-- treats alike.
unfoldable pub continuation : ℕ → ℕ → Bytes → Option (ℕ × Bytes)
continuation zero cp s = some (cp, s)
continuation (suc n) cp [] = none
continuation (suc n) cp (c ∷ s) =
    let rest = continuation n (cp * 64 + c % 64) s in if c / 64 == 2 then rest else none

-- Overlong encodings, surrogate halves and values past Unicode; `n` is `nbytes - 1`.
unfoldable pub rejected : ℕ → ℕ → Bool
rejected n cp =
    n == 1 && ltb cp 0x80
    || n == 2 && ltb cp 0x800
    || n == 3 && ltb cp 0x10000
    || within 0xD800 0xDFFF cp
    || ltb 0x10FFFF cp

-- The end of `decodeUtf8`: a refused sequence is skipped by one byte.
unfoldable pub accept : ℕ → Option (ℕ × Bytes) → Bytes → ℕ × Bytes
accept n none s = (invalid, s)
accept n (some (cp, rest)) s = if rejected n cp then (invalid, s) else (cp, rest)

unfoldable pub sequence : Option (ℕ × ℕ) → Bytes → ℕ × Bytes
sequence none s = (invalid, s)
sequence (some (n, bits)) s = accept n (continuation n bits s) s

unfoldable pub decode_utf8 : Bytes → ℕ × Bytes
unfolding lead continuation rejected accept sequence
decode_utf8 [] = (invalid, [])
decode_utf8 (c0 ∷ s) = if ltb c0 0x80 then (c0, s) else sequence (lead c0) s

unfoldable pub is_token_character : ℕ → Bool
is_token_character cp =
    if cp == invalid
    then false
    else if ltb cp 0x80
    then within b'a' b'z' cp || within b'A' b'Z' cp || within b'0' b'9' cp
    else within 0xC0 0xFF cp && not (cp == 0xD7) && not (cp == 0xF7)
      || within 0x100 0x2FF cp
      || within 0x370 0x3FF cp
      || within 0x1F00 0x1FFF cp
      || within 0x400 0x4FF cp
      || within 0x590 0x5FF cp
      || within 0x600 0x6FF cp
      || within 0x900 0xDFF cp
      || within 0x3040 0x30FF cp
      || within 0x3400 0x4DBF cp
      || within 0x4E00 0x9FFF cp
      || within 0xAC00 0xD7AF cp

-- The bytes that `appendCodepoint` appends.
unfoldable pub encode : ℕ → Bytes
encode cp =
    if ltb cp 0x80
    then cp ∷ []
    else if ltb cp 0x800
    then (0xC0 + cp / 0x40) ∷ (0x80 + cp % 0x40) ∷ []
    else if ltb cp 0x10000
    then (0xE0 + cp / 0x1000) ∷ (0x80 + cp / 0x40 % 0x40) ∷ (0x80 + cp % 0x40) ∷ []
    else (0xF0 + cp / 0x40000)
      ∷ (0x80 + cp / 0x1000 % 0x40)
      ∷ (0x80 + cp / 0x40 % 0x40)
      ∷ (0x80 + cp % 0x40)
      ∷ []

unfoldable pub append_codepoint : Bytes → ℕ → Bytes
unfolding encode
append_codepoint out cp = out ++ encode cp

unfoldable pub fold_case : ℕ → ℕ
fold_case cp =
    if within b'A' b'Z' cp
    then cp + 0x20
    else if within 0xC0 0xDE cp && not (cp == 0xD7)
    then cp + 0x20
    else if within 0x100 0x17F cp && cp % 2 == 0
    then cp + 1
    else if within 0x180 0x24F cp && cp % 2 == 0 && not (within 0x1C4 0x1CC cp)
    then cp + 1
    else if within 0x391 0x3A9 cp && not (cp == 0x3A2)
    then cp + 0x20
    else if within 0x410 0x42F cp
    then cp + 0x20
    else cp

-- The `flush` of `tokenize`, on `tokens`.
unfoldable pub flush : List Bytes → Bytes → List Bytes
flush tokens [] = tokens
flush tokens (c ∷ cs) = tokens ++ (c ∷ cs) ∷ []

-- One round of the loop, on `tokens` and `current`.
unfoldable pub take_codepoint : ℕ → List Bytes → Bytes → List Bytes × Bytes
unfolding append_codepoint
take_codepoint cp tokens current =
    if is_token_character cp
    then (tokens, append_codepoint current (fold_case cp))
    else (flush tokens current, [])

-- The loop, on fuel: a round takes at least one byte.
unfoldable pub scan : ℕ → Bytes → List Bytes → Bytes → List Bytes
scan f [] tokens current = flush tokens current
scan zero (c ∷ s) tokens current = tokens
scan (suc f) (c ∷ s) tokens current =
    let (cp, rest) = decode_utf8 (c ∷ s) in
    let (tokens', current') = take_codepoint cp tokens current in scan f rest tokens' current'

unfoldable pub tokenize : Bytes → List Bytes
unfolding scan
tokenize text = scan (length text) text [] []
