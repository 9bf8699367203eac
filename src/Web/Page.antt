-- ===== src/Web/Page.antt =====
-- src/web_server.cpp: the page, and what the texts in it can do to it.
use shadow_se.Base.{
  ℕ, suc, ◌+◌, ◌≡◌, refl, ap, arith, false, List, [], ◌∷◌, ◌++◌, map, ◌==◌, if◌then◌else◌, length,
  Bytes,
}
use shadow_se.Document.{is_onion}
use shadow_se.Web.{
  Scored, escape_html, render_result, render_results, render_summary, render_none, render_list,
  render_page,
}
use shadow_se.Web.Escape.{inert, IsInert, escape_html-IsInert}

-- How often a byte stands in a text.
unfoldable pub occurrences : ℕ → Bytes → ℕ
occurrences c [] = 0
occurrences c (x ∷ s) = (if x == c then 1 else 0) + occurrences c s

-- A result without its texts, and a query without its letters.
unfoldable pub bare : {Score : Type 0} → Scored Score → Scored Score
bare r = record r { doc = record r.doc { title = []; url = []; snippet = [] } }

unfoldable pub bare_query : Bytes → Bytes
bare_query [] = []
bare_query (c ∷ s) = b'q' ∷ []

pub occurrences-append :
    (c : ℕ) (s t : Bytes) → occurrences c (s ++ t) ≡ occurrences c s + occurrences c t
unfolding occurrences
occurrences-append c [] t = omega arith
occurrences-append c (x ∷ s) t = omega (arith, occurrences-append c s t)

occurrences-IsInert : (c : ℕ) (s : Bytes) → inert c ≡ false → IsInert s → occurrences c s ≡ 0
unfolding occurrences
occurrences-IsInert c [] h k = refl
occurrences-IsInert c (x ∷ s) h (k, ks) = ground (arith, occurrences-IsInert c s h ks)

length-bare : {Score : Type 0} (rs : List (Scored Score)) → length (map bare rs) ≡ length rs
length-bare [] = refl
length-bare (r ∷ rs) = ap suc (length-bare rs)

pub occurrences-escape_html :
    (c : ℕ) → inert c ≡ false → (s : Bytes) → occurrences c (escape_html s) ≡ 0
occurrences-escape_html c special s = occurrences-IsInert c _ special (escape_html-IsInert s)

module _ {Score : Type 0} (show_score : Score → Bytes) (show_count : ℕ → Bytes) (c : ℕ)
    (special : inert c ≡ false) where
  render_result-bare :
      (r : Scored Score)
      → occurrences c (render_result show_score show_count r)
        ≡ occurrences c (render_result show_score show_count (bare r))
  unfolding render_result bare is_onion
  render_result-bare r = simp (occurrences-append, occurrences-escape_html c special)

  render_results-bare :
      (rs : List (Scored Score))
      → occurrences c (render_results show_score show_count rs)
        ≡ occurrences c (render_results show_score show_count (map bare rs))
  unfolding render_results
  render_results-bare [] = refl
  render_results-bare (r ∷ rs) =
      simp (occurrences-append, render_result-bare r, render_results-bare rs)

  render_summary-cons :
      (x y : ℕ) (s t : Bytes) (rs : List (Scored Score))
      → occurrences c (render_summary show_score show_count (x ∷ s) rs)
        ≡ occurrences c (render_summary show_score show_count (y ∷ t) (map bare rs))
  unfolding render_summary
  render_summary-cons x y s t rs =
      simp (occurrences-append, occurrences-escape_html c special) (rw length-bare refl)

  render_summary-bare :
      (query : Bytes) (rs : List (Scored Score))
      → occurrences c (render_summary show_score show_count query rs)
        ≡ occurrences c (render_summary show_score show_count (bare_query query) (map bare rs))
  unfolding render_summary bare_query
  render_summary-bare [] rs = refl
  render_summary-bare (x ∷ s) rs = render_summary-cons x b'q' s [] rs

  render_none-bare :
      (query : Bytes) (rs : List (Scored Score))
      → occurrences c (render_none show_score show_count query rs)
        ≡ occurrences c (render_none show_score show_count (bare_query query) (map bare rs))
  unfolding render_none bare_query
  render_none-bare [] [] = refl
  render_none-bare (x ∷ s) [] = refl
  render_none-bare [] (r ∷ rs) = refl
  render_none-bare (x ∷ s) (r ∷ rs) = refl

  render_list-bare :
      (rs : List (Scored Score))
      → occurrences c (render_list show_score show_count rs)
        ≡ occurrences c (render_list show_score show_count (map bare rs))
  unfolding render_list
  render_list-bare [] = refl
  render_list-bare (r ∷ rs) = simp (occurrences-append, render_results-bare (r ∷ rs))

  -- The texts of the documents, the title and the query add no `<`, `>`, `"` or `'` to the page: it
  -- has as many of each as the page for the same results without their texts, whatever is printed
  -- for a score and a count.
  pub render_page-bare :
      (title query : Bytes) (rs : List (Scored Score))
      → occurrences c (render_page show_score show_count title query rs)
        ≡ occurrences c (render_page show_score show_count [] (bare_query query) (map bare rs))
  unfolding render_page
  render_page-bare title query rs = simp (
    occurrences-append,
    occurrences-escape_html c special,
    render_summary-bare query rs,
    render_none-bare query rs,
    render_list-bare rs,
  )
