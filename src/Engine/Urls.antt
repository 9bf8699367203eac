-- ===== src/Engine/Urls.antt =====
-- src/engine.cpp: `normalizeUrl`, and what the operations keep.
use shadow_se.Base.{
  ◌<◌, ◌^◌, ◌-◌, ◌≡◌, refl, inl, inr, ◌⊎◌, true, Bool-cases, some, List, [], ◌∷◌, ◌++◌, length,
  Bytes, codes, starts_with, trim,
}
use shadow_se.Document.{Document}
use shadow_se.Index.Valid.{IsValid, replace_all-IsValid}
use shadow_se.Html.Links.Resolved.{IsWeb}
use shadow_se.Engine.{Engine, with_scheme, normalize_url, load_documents}

with_scheme-IsWeb : (url : Bytes) → (with_scheme url ≡ []) ⊎ IsWeb (with_scheme url)
unfolding with_scheme
with_scheme-IsWeb [] = inl refl
with_scheme-IsWeb (c ∷ url) =
    let added : starts_with (codes "http://") (codes "http://" ++ c ∷ url) ≡ true =
      unfold starts_with in refl in
    elim (Bool-cases (starts_with (codes "http://") (c ∷ url))) [
      | inl e ↦ rw e (inr (inl e))
      | inr e ↦ elim (Bool-cases (starts_with (codes "https://") (c ∷ url))) [
        | inl f ↦ rw (e, f) (inr (inr f))
        | inr f ↦ rw (e, f) (inr (inl added))
      ]
    ]

-- A URL that the user typed is normalized to nothing or to an address that starts with `http://` or
-- `https://`.
pub normalize_url-IsWeb : (input : Bytes) → (normalize_url input ≡ []) ⊎ IsWeb (normalize_url input)
unfolding normalize_url
normalize_url-IsWeb input = with_scheme-IsWeb (trim input)

-- Loading keeps the index valid, whatever was read, or leaves the engine as it is.
pub load_documents-IsValid :
    (docs : List Document) (e : Engine)
    → length docs < 2 ^ 64 - 1
    → IsValid (load_documents (some docs) e).1.index
unfolding load_documents
load_documents-IsValid docs e h = replace_all-IsValid docs e.index h
