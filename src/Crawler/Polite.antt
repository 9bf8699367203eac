-- ===== src/Crawler/Polite.antt =====
-- src/crawler.cpp: `politenessWait` of a single worker. A round reads the clock, and reads it again where it
-- stores the time; the rounds' readings are the list. The time point of a new domain is zero.
use shadow_se.Base.{
  ℕ, ◌-◌, ◌≤◌, ◌≡◌, inl, inr, Bool-cases, Option, none, some, List, [], ◌∷◌, leb, if◌then◌else◌,
  Bytes, arith,
}
use shadow_se.Base.Map.{Map, bytes_key, find, put}

unfoldable pub last_fetch : Bytes → Map Bytes ℕ → ℕ
last_fetch domain m = elim (find domain m) [ none ↦ 0 | some time ↦ time ]

-- `none` if the readings end before the delay does.
unfoldable pub politeness_wait : ℕ → Bytes → List (ℕ × ℕ) → Map Bytes ℕ → Option (ℕ × Map Bytes ℕ)
politeness_wait delay domain [] m = none
politeness_wait delay domain ((now, stored) ∷ readings) m =
    let later = politeness_wait delay domain readings m in
    if leb delay (now - last_fetch domain m) then some (now, put domain stored m) else later

-- A worker that comes back from its wait does so at a reading that is at least the delay behind the
-- time that was stored for the domain before.
pub politeness_wait-spaced :
    (delay : ℕ) (domain : Bytes) (readings : List (ℕ × ℕ)) (m m' : Map Bytes ℕ) (now : ℕ)
    → politeness_wait delay domain readings m ≡ some (now, m')
    → delay ≤ now - last_fetch domain m
unfolding politeness_wait
politeness_wait-spaced delay domain [] m m' now h = absurd (cc)
politeness_wait-spaced delay domain ((t, stored) ∷ readings) m m' now h =
    elim (Bool-cases (leb delay (t - last_fetch domain m))) [
      | inl e ↦ ground (arith, e, h)
      | inr e ↦ politeness_wait-spaced delay domain readings m m' now (ground (arith, e, h))
    ]
