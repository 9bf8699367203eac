-- ===== src/Console/Spinner.antt =====
-- src/main.cpp: `runSpinner`, and the flag that it waits for. `built k` tells whether the engine is built by the
-- time of the spinner's reading `k`.
use shadow_se.Base.{
  ℕ, zero, suc, ◌+◌, ◌≡◌, refl, inl, inr, Bool, true, Bool-cases, not, Option, none, some,
  if◌then◌else◌,
}

-- The number of frames that are shown before the flag is true, within so many readings.
unfoldable pub run_spinner : (ℕ → Bool) → ℕ → ℕ → Option ℕ
run_spinner done zero k = none
run_spinner done (suc n) k =
    let more = run_spinner done n (k + 1) in if done k then some k else more

-- `probing` in `main`: true before the thread starts, and false once the engine is built.
unfoldable pub probing : (ℕ → Bool) → ℕ → Bool
probing built k = not (built k)

built-none :
    (built : ℕ → Bool) (n k : ℕ)
    → ((i : ℕ) → built i ≡ true → built (i + 1) ≡ true)
    → built k ≡ true
    → run_spinner (probing built) n k ≡ none
unfolding run_spinner probing
built-none built zero k up h = refl
built-none built (suc n) k up h = rw h (built-none built n (k + 1) up (up k h))

-- The spinner never spins while the engine is built: it ends at its first reading, with no frame shown, if
-- the engine is not built by then, and otherwise it never ends.
pub run_spinner_lem :
    (built : ℕ → Bool) (n : ℕ)
    → ((i : ℕ) → built i ≡ true → built (i + 1) ≡ true)
    → run_spinner (probing built) (suc n) 0 ≡ (if built 0 then none else some 0)
unfolding run_spinner probing
run_spinner_lem built n up = elim (Bool-cases (built 0)) [
  | inl h ↦ rw h (built-none built n (0 + 1) up (up 0 h))
  | inr h ↦ rw h refl
]
