-- ===== src/Notifications/Html.antt =====
-- The markup of a mail (src/modules/notifications/templates/shared.ts). A date is a value of the
-- parameter `Date`; `iso` is `toISOString`, and `none` for a date that is not valid.
use Prim.Native.Char.{code}
use Prim.Native.String
use ceoma_api.Prelude.{ℕ, Option, none, some, List, [], ◌∷◌, String, ◌==◌, if◌then◌else◌}
use ceoma_api.Tenants.{slice_to}

-- `replaceAll` of one character
unfoldable pub replace_all : (n : ℕ) → String → String → String
replace_all n by String.[] = ""
replace_all n by (String.◌∷◌ c t) =
    let rest = replace_all n by t in if code c == n then String.◌++◌ by rest else String.◌∷◌ c rest

unfoldable pub escape_html : String → String
unfolding replace_all
escape_html value = replace_all b'\'' "&#39;" (
    replace_all b'"' "&quot;"
      (replace_all b'>' "&gt;" (replace_all b'<' "&lt;" (replace_all b'&' "&amp;" value))))

-- A label and a value
abbrev pub TemplateRow : Type 0
TemplateRow = String × String

abbrev pub row_start : String
row_start =
    "<tr><td style=\"padding:6px 10px;border:1px solid #e5e7eb;background:#f8fafc;font-weight:600;\">"

abbrev pub row_middle : String
row_middle = "</td><td style=\"padding:6px 10px;border:1px solid #e5e7eb;\">"

abbrev pub row_end : String
row_end = "</td></tr>"

unfoldable pub row_html : TemplateRow → String
unfolding escape_html
row_html (label, value) = String.◌++◌ row_start (
    String.◌++◌ (escape_html label)
      (String.◌++◌ row_middle (String.◌++◌ (escape_html value) row_end)))

-- `rows.map(toRow).join("")`
unfoldable pub rows_html : List TemplateRow → String
unfolding row_html
rows_html [] = ""
rows_html (r ∷ rows) = String.◌++◌ (row_html r) (rows_html rows)

abbrev pub html_start : String
html_start =
    "\n    <div style=\"font-family:Arial,sans-serif;color:#111827;line-height:1.45;\">\n      <h2 style=\"margin:0 0 8px;\">"

abbrev pub html_intro : String
html_intro = "</h2>\n      <p style=\"margin:0 0 12px;\">"

abbrev pub html_table : String
html_table =
    "</p>\n      <table style=\"border-collapse:collapse;border-spacing:0;min-width:420px;\">"

abbrev pub html_end : String
html_end = "</table>\n    </div>\n  "

unfoldable pub render_template : (title intro : String) → List TemplateRow → String
unfolding escape_html rows_html
render_template title intro rows = String.◌++◌ html_start (
    String.◌++◌ (escape_html title) (
      String.◌++◌ html_intro (
        String.◌++◌ (escape_html intro)
          (String.◌++◌ html_table (String.◌++◌ (rows_html rows) html_end)))))

module _ {Date : Type 0} (iso : Date → Option String) where
  -- `undefined`, `null` and a date that is not valid are shown as N/A.
  unfoldable pub format_date_only : Option Date → String
  unfolding slice_to
  format_date_only none = "N/A"
  format_date_only (some d) = elim (iso d) [ none ↦ "N/A" | some t ↦ slice_to 10 t ]
