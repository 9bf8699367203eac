-- ===== src/Admin/Dashboard/Sections.antt =====
-- src/admin.cpp: the fixed texts of the dashboard. A sign outside ASCII is its UTF-8 bytes.
use shadow_se.Base.{[], ◌∷◌, ◌++◌, Bytes, codes}

abbrev pub em_dash : Bytes
em_dash = 226 ∷ 128 ∷ 148 ∷ []

abbrev pub middle_dot : Bytes
middle_dot = 194 ∷ 183 ∷ []

abbrev pub arrow_right : Bytes
arrow_right = 226 ∷ 134 ∷ 146 ∷ []

unfoldable pub plain_card : Bytes → Bytes → Bytes
plain_card label value =
    codes "<div class=\"card\"><div class=\"k\">"
    ++ (label ++ (codes "</div><div class=\"v\">" ++ (value ++ codes "</div></div>\n")))

abbrev pub page_style : Bytes
page_style =
    codes
      "\">\n<meta name=\"robots\" content=\"noindex, nofollow\">\n<style>body{font-family:ui-monospace,Menlo,Consolas,monospace;background:#0d1117;color:#c9d1d9;max-width:900px;margin:2rem auto;padding:0 1rem;line-height:1.55}h1{color:#58a6ff;font-size:1.25rem}h2{color:#8b949e;font-size:1rem;border-bottom:1px solid #21262d;padding-bottom:.3rem}.grid{display:flex;flex-wrap:wrap;gap:1rem}.card{background:#161b22;border:1px solid #30363d;border-radius:8px;padding:.8rem 1rem;min-width:220px;flex:1}.k{color:#8b949e;font-size:.8rem}.v{font-size:1.2rem;color:#e6edf3}.up{color:#3fb950}.down{color:#f85149}.warn{color:#e3b341}.onion{color:#bc8cff;word-break:break-all}table{width:100%;border-collapse:collapse;font-size:.85rem}td,th{padding:.35rem .5rem;text-align:left;border-bottom:1px solid #21262d}a{color:#58a6ff}.refresh{color:#484f58;font-size:.8rem}</style></head><body>\n"
