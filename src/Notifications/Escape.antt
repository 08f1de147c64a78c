-- ===== src/Notifications/Escape.antt =====
-- No text in a mail is read as markup (src/modules/notifications/templates/shared.ts).
use Prim.Native.Char.{Char, code}
use Prim.Native.String
use Prim.Native.String.append
use text.Mathlib.TextEquality.{Char-path}
use ceoma_api.Prelude.{
  ◌≡◌, refl, ap, ◌∙◌, ℕ, zero, suc, Bool, true, false, ◌&&◌, ◌||◌, Option, none, some, List, [],
  ◌∷◌, map, String, ◌==◌, if◌then◌else◌, arith, Bool-cases, inl, inr,
}
use ceoma_api.Notifications.Html.{replace_all, escape_html, TemplateRow, rows_html, render_template}

-- Concatenation that computes at a literal.
abbrev glue : String → String → String
glue String.[] t = t
glue (String.◌∷◌ c s) t = String.◌∷◌ c (glue s t)

-- Whether the first text stands at the beginning of the second.
abbrev starts : String → String → Bool
starts String.[] t = true
starts (String.◌∷◌ c s) String.[] = false
starts (String.◌∷◌ c s) (String.◌∷◌ d t) = code c == code d && starts s t

append-glue : (s t : String) → String.◌++◌ s t ≡ glue s t
append-glue String.[] t = append.nil t
append-glue (String.◌∷◌ c s) t = append.cons c s t ∙ ap (String.◌∷◌ c) (append-glue s t)

-- What a character becomes.
piece : Char → String
piece c =
    if code c == b'&'
    then "&amp;"
    else if code c == b'<'
    then "&lt;"
    else if code c == b'>'
    then "&gt;"
    else if code c == b'"'
    then "&quot;"
    else if code c == b'\''
    then "&#39;"
    else String.◌∷◌ c ""

escape_quote :
    (c : Char) (t : String)
    → replace_all b'\'' "&#39;" (String.◌∷◌ c t)
      ≡ glue (if code c == b'\'' then "&#39;" else String.◌∷◌ c "") (replace_all b'\'' "&#39;" t)
unfolding replace_all
escape_quote c t = elim (Bool-cases (code c == b'\'')) [
  | inl hit ↦ rw (hit, append-glue "&#39;" (replace_all b'\'' "&#39;" t))
  | inr other ↦ rw other
]

escape_html-cons :
    (c : Char) (t : String) → escape_html (String.◌∷◌ c t) ≡ glue (piece c) (escape_html t)
unfolding escape_html piece
escape_html-cons c t =
    let a = replace_all b'&' "&amp;" t in
    let b = replace_all b'<' "&lt;" a in
    let d = replace_all b'>' "&gt;" b in
    let e = replace_all b'"' "&quot;" d in
    elim (Bool-cases (code c == b'&')) [
      | inl hit ↦ rw (hit, append-glue "&amp;" a)
      | inr no1 ↦ rw no1 (elim (Bool-cases (code c == b'<')) [
        | inl hit ↦ rw (hit, append-glue "&lt;" b)
        | inr no2 ↦ rw no2 (elim (Bool-cases (code c == b'>')) [
          | inl hit ↦ rw (hit, append-glue "&gt;" d)
          | inr no3 ↦ rw no3 (elim (Bool-cases (code c == b'"')) [
            | inl hit ↦ rw (hit, append-glue "&quot;" e)
            | inr no4 ↦ rw no4 (escape_quote c e)
          ])
        ])
      ])
    ]

-- The character that an entity stands for, without its `&`, and the length of what is left of it.
entity : String → Option (Char × ℕ)
entity t =
    if starts "amp;" t
    then some ("&", 4)
    else if starts "lt;" t
    then some ("<", 3)
    else if starts "gt;" t
    then some (">", 3)
    else if starts "quot;" t
    then some ("\"", 5)
    else if starts "#39;" t
    then some ("'", 4)
    else none

-- How a reader of HTML takes a text, in which so many characters are still to be skipped.
read_from : ℕ → String → String
unfolding entity
read_from n String.[] = ""
read_from (suc n) (String.◌∷◌ c t) = read_from n t
read_from zero (String.◌∷◌ c t) = elim (if code c == b'&' then entity t else none) [
  | none ↦ String.◌∷◌ c (read_from zero t)
  | some (d, n) ↦ String.◌∷◌ d (read_from n t)
]

pub read_html : String → String
unfolding read_from
read_html t = read_from 0 t

-- `<`, `>` and the two quotes, by which tags and their attributes are written.
abbrev is_markup : Char → Bool
is_markup c = code c == b'<' || code c == b'>' || code c == b'"' || code c == b'\''

data Kind (c : Char) : Type 0 where
  ampersand : c ≡ "&" → Kind c
  less : c ≡ "<" → Kind c
  greater : c ≡ ">" → Kind c
  double : c ≡ "\"" → Kind c
  single : c ≡ "'" → Kind c
  plain : piece c ≡ String.◌∷◌ c "" → (code c == b'&') ≡ false → is_markup c ≡ false → Kind c

char_of : (c d : Char) → (code c == code d) ≡ true → c ≡ d
char_of c d h = Char-path c d (ground arith)

read_piece : (c : Char) → Kind c
unfolding piece
read_piece c = elim (Bool-cases (code c == b'&')) [
  | inl e ↦ ampersand (char_of c "&" e)
  | inr n1 ↦ elim (Bool-cases (code c == b'<')) [
    | inl e ↦ less (char_of c "<" e)
    | inr n2 ↦ elim (Bool-cases (code c == b'>')) [
      | inl e ↦ greater (char_of c ">" e)
      | inr n3 ↦ elim (Bool-cases (code c == b'"')) [
        | inl e ↦ double (char_of c "\"" e)
        | inr n4 ↦ elim (Bool-cases (code c == b'\'')) [
          | inl e ↦ single (char_of c "'" e)
          | inr n5 ↦ plain (rw (n1, n2, n3, n4, n5)) n1 (rw (n2, n3, n4, n5))
        ]
      ]
    ]
  ]
]

read_from-piece :
    (c : Char) (t : String) → read_from 0 (glue (piece c) t) ≡ String.◌∷◌ c (read_from 0 t)
unfolding read_from piece
read_from-piece c t = elim (read_piece c) [
  | ampersand e ↦ rw e
  | less e ↦ rw e
  | greater e ↦ rw e
  | double e ↦ rw e
  | single e ↦ rw e
  | plain e no_entity _ ↦ rw e (rw (no_entity, read_from))
]

-- A text put into a mail is shown as it was by a reader that decodes the five entities.
pub read_html-escape_html : (t : String) → read_html (escape_html t) ≡ t
unfolding read_html
read_html-escape_html String.[] = unfold escape_html in refl
read_html-escape_html (String.◌∷◌ c t) =
    rw (escape_html-cons c t, read_from-piece c (escape_html t))
      (ap (String.◌∷◌ c) (read_html-escape_html t))

-- The characters of the markup in a text, in their order.
pub markup : String → String
markup String.[] = ""
markup (String.◌∷◌ c t) = if is_markup c then String.◌∷◌ c (markup t) else markup t

markup-glue : (s t : String) → markup (glue s t) ≡ glue (markup s) (markup t)
unfolding markup
markup-glue String.[] t = refl
markup-glue (String.◌∷◌ c s) t = elim (Bool-cases (is_markup c)) [
  | inl e ↦ rw e (ap (String.◌∷◌ c) (markup-glue s t))
  | inr e ↦ rw e (markup-glue s t)
]

markup-append : (s t : String) → markup (String.◌++◌ s t) ≡ glue (markup s) (markup t)
markup-append s t = rw (append-glue s t) (markup-glue s t)

markup-piece : (c : Char) → markup (piece c) ≡ ""
unfolding markup piece
markup-piece c = elim (read_piece c) [
  | ampersand e ↦ rw e
  | less e ↦ rw e
  | greater e ↦ rw e
  | double e ↦ rw e
  | single e ↦ rw e
  | plain e _ no_markup ↦ rw e (rw no_markup)
]

markup-escape_html : (t : String) → markup (escape_html t) ≡ ""
markup-escape_html String.[] = unfold escape_html markup in refl
markup-escape_html (String.◌∷◌ c t) =
    rw (escape_html-cons c t, markup-glue (piece c) (escape_html t), markup-piece c)
      (markup-escape_html t)

abbrev pub blank : TemplateRow → TemplateRow
blank _ = ("", "")

ruleset markup_laws = (markup-append, markup-escape_html)

markup-rows_html :
    (rows : List TemplateRow) → markup (rows_html rows) ≡ markup (rows_html (map blank rows))
unfolding rows_html
markup-rows_html [] = refl
markup-rows_html (r ∷ rows) = simp (markup_laws, markup-rows_html rows)

-- Whatever its title, its introduction and the labels and values of its rows, a mail has the
-- angle brackets and quotes of the mail with as many rows and no text, in their order, so that
-- no text opens or closes a tag.
pub markup-render_template :
    (title intro : String) (rows : List TemplateRow)
    → markup (render_template title intro rows) ≡ markup (render_template "" "" (map blank rows))
unfolding render_template
markup-render_template title intro rows = simp (markup_laws, markup-rows_html rows)
