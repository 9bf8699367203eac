-- ===== src/Tokenizer/Words.antt =====
-- What a token is, and what `tokenize` does to a text that is made of tokens.
use shadow_se.Base.{
  ℕ, zero, suc, ◌≤◌, Bool, true, not, ◌&&◌, ◌||◌, List, [], ◌∷◌, ◌++◌, ltb, ◌==◌, length, Bytes,
  ◌≡◌, ◌≢◌, refl, sym, subst, arith, Bool-cases, passes, passes-below, inl, inr, All, All-append,
  append_assoc, append-nil,
}
use shadow_se.Tokenizer.{
  decode_utf8, encode, fold_case, is_token_character, flush, take_codepoint, scan, tokenize,
}
use shadow_se.Tokenizer.RoundTrip.{IsScalar}

-- A code point that a token can hold: a token character that is its own folding.
pub record IsFolded (cp : ℕ) : Type 0 where
  pub scalar : IsScalar cp
  pub token : is_token_character cp ≡ true
  pub folded : fold_case cp ≡ cp

-- The UTF-8 text of a sequence of folded token characters.
pub data IsWord : Bytes → Type 0 where
  nil : IsWord []
  cons : {cp : ℕ} {rest : Bytes} → IsFolded cp → IsWord rest → IsWord (encode cp ++ rest)

abbrev pub IsToken : Bytes → Type 0
IsToken w = IsWord w × (w ≢ [])

is_token_character-IsScalar : (cp : ℕ) → is_token_character cp ≡ true → IsScalar cp
unfolding is_token_character
is_token_character-IsScalar cp h = record { below = ground arith; no_surrogate = ground arith }

-- A folding is itself folded, and is a token character if the code point was one.
abbrev FoldsWell : ℕ → Type 0
FoldsWell cp =
    (fold_case (fold_case cp) ≡ fold_case cp)
    × (is_token_character cp ≡ true → is_token_character (fold_case cp) ≡ true)

-- The same as a test.
folds_well : ℕ → Bool
folds_well cp =
    fold_case (fold_case cp) == fold_case cp
    && (not (is_token_character cp) || is_token_character (fold_case cp))

fold_table : passes folds_well 0x450 ≡ true
unfolding passes folds_well fold_case is_token_character
fold_table = refl

-- Past the tables of `foldCase` nothing is folded.
fold_rest : (cp : ℕ) → 0x450 ≤ cp → fold_case cp ≡ cp
unfolding fold_case
fold_rest cp h = ground arith

folds_well-FoldsWell : (cp : ℕ) → folds_well cp ≡ true → FoldsWell cp
unfolding folds_well
folds_well-FoldsWell cp h = (ground arith, λ t. ground arith)

fold_well : (cp : ℕ) → FoldsWell cp
fold_well cp = elim (Bool-cases (ltb cp 0x450)) [
  | inl low ↦ folds_well-FoldsWell cp (passes-below folds_well 0x450 fold_table cp (ground arith))
  | inr high ↦ let same = fold_rest cp (ground arith) in (rw (same, same), λ t. rw same t)
]

pub fold_case-IsFolded : (cp : ℕ) → is_token_character cp ≡ true → IsFolded (fold_case cp)
fold_case-IsFolded cp h = record {
  scalar = is_token_character-IsScalar _ ((fold_well cp).1 h);
  token = (fold_well cp).1 h;
  folded = (fold_well cp).0;
}

IsWord-concat : {w : Bytes} (cp : ℕ) → IsWord w → IsFolded cp → IsWord (w ++ encode cp)
IsWord-concat cp nil f = subst IsWord (append-nil (encode cp)) (cons f nil)
IsWord-concat cp (cons {cp = c} {rest = r} g t) f =
    subst IsWord (sym (append_assoc (encode c) r (encode cp))) (cons g (IsWord-concat cp t f))

flush-IsToken :
    (tokens : List Bytes) (w : Bytes) → All IsToken tokens → IsWord w → All IsToken (flush tokens w)
unfolding flush
flush-IsToken tokens [] h k = h
flush-IsToken tokens (c ∷ cs) h k = All-append IsToken tokens _ h ((k, λ e. cc), tt)

-- One round keeps finished tokens and the word under construction well formed.
take_codepoint-IsToken :
    (cp : ℕ) (tokens : List Bytes) (w : Bytes)
    → All IsToken tokens
    → IsWord w
    → All IsToken (take_codepoint cp tokens w).0 × IsWord (take_codepoint cp tokens w).1
unfolding take_codepoint
take_codepoint-IsToken cp tokens w h k = elim (Bool-cases (is_token_character cp)) [
  | inl t ↦ rw t (h, IsWord-concat _ k (fold_case-IsFolded cp t))
  | inr f ↦ rw f (flush-IsToken tokens w h k, nil)
]

scan-IsToken :
    (f : ℕ) (text : Bytes) (tokens : List Bytes) (w : Bytes)
    → All IsToken tokens
    → IsWord w
    → All IsToken (scan f text tokens w)
unfolding scan
scan-IsToken zero [] tokens w h k = flush-IsToken tokens w h k
scan-IsToken zero (c ∷ s) tokens w h k = h
scan-IsToken (suc f) [] tokens w h k = flush-IsToken tokens w h k
scan-IsToken (suc f) (c ∷ s) tokens w h k =
    let (h', k') = take_codepoint-IsToken (decode_utf8 (c ∷ s)).0 tokens w h k in
    scan-IsToken f _ _ _ h' k'

-- Every token of every text is a non-empty UTF-8 word of folded token characters.
pub tokenize-IsToken : (text : Bytes) → All IsToken (tokenize text)
unfolding tokenize
tokenize-IsToken text = scan-IsToken (length text) text [] [] tt nil
