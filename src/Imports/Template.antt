-- ===== src/Imports/Template.antt =====
-- The template that a client downloads and fills in: `csvField` and `buildImportTemplateCsv`.
use Prim.Native.Char.{Char, code}
use Prim.Native.String
use Prim.Native.String.append
use ceoma_api.Prelude.{
  ◌≡◌, refl, ap, ◌∙◌, Bool, true, false, not, ◌||◌, List, [], ◌∷◌, map, String, ◌==◌, or_default,
  if◌then◌else◌, arith, Bool-cases, inl, inr, ||-eq-false,
}
use text.Mathlib.TextLemmas.{append_assoc}
use ceoma_api.Imports.{Column}

-- `/[",\n]/`
abbrev pub is_csv_special : Char → Bool
is_csv_special c = code c == 34 || code c == b',' || code c == 10

unfoldable pub has_special : String → Bool
has_special String.[] = false
has_special (String.◌∷◌ c t) = is_csv_special c || has_special t

-- `value.replace(/"/g, '""')`
unfoldable pub double_quotes : String → String
double_quotes String.[] = ""
double_quotes (String.◌∷◌ c t) =
    if code c == 34
    then String.◌∷◌ c (String.◌∷◌ c (double_quotes t))
    else String.◌∷◌ c (double_quotes t)

-- `csvField`
unfoldable pub csv_field : String → String
unfolding has_special double_quotes
csv_field t = if has_special t then String.◌∷◌ "\"" (String.◌++◌ (double_quotes t) "\"") else t

-- `join(",")`
unfoldable pub join_fields : List String → String
join_fields [] = ""
join_fields (t ∷ []) = t
join_fields (t ∷ rest) = String.◌++◌ t (String.◌++◌ "," (join_fields rest))

unfoldable pub build_import_template_csv : List Column → String
unfolding csv_field join_fields
build_import_template_csv columns =
    String.◌++◌ (join_fields (map (λ c. csv_field c.header) columns)) (
      String.◌++◌ "\n"
        (String.◌++◌ (join_fields (map (λ c. csv_field (or_default c.example "")) columns)) "\n"))

-- A text with a carriage return
unfoldable pub has_return : String → Bool
has_return String.[] = false
has_return (String.◌∷◌ c t) = code c == 13 || has_return t

-- A character that ends a field without quotes: a comma, a carriage return or a line feed
abbrev pub is_separator : Char → Bool
is_separator c = code c == b',' || code c == 13 || code c == 10

-- A reader of one field, with what follows it: a field in quotes, where two quotes stand for one, runs
-- to the closing quote, and any other to the first separator. It reads what RFC 4180 allows, and lines
-- that end in a line feed alone, which are what the template has.
abbrev put : Char → String × String → String × String
put c (field, rest) = (String.◌∷◌ c field, rest)

read_plain : String → String × String
read_plain String.[] = ("", "")
read_plain (String.◌∷◌ c t) = if is_separator c then ("", String.◌∷◌ c t) else put c (read_plain t)

-- After the opening quote
read_quoted : String → String × String
read_quoted String.[] = ("", "")
read_quoted (String.◌∷◌ c String.[]) = if code c == 34 then ("", "") else (String.◌∷◌ c "", "")
read_quoted (String.◌∷◌ c (String.◌∷◌ d t)) =
    let escaped = put c (read_quoted t) in
    let more = put c (read_quoted (String.◌∷◌ d t)) in
    if code c == 34 then (if code d == 34 then escaped else ("", String.◌∷◌ d t)) else more

unfoldable pub read_field : String → String × String
unfolding read_plain read_quoted
read_field String.[] = ("", "")
read_field (String.◌∷◌ c t) = if code c == 34 then read_quoted t else read_plain (String.◌∷◌ c t)

quote_append : (s : String) → String.◌++◌ "\"" s ≡ String.◌∷◌ "\"" s
quote_append s = rw (append.cons, append.nil) refl

read_quoted_plain :
    (c : Char) (t : String)
    → (code c == 34) ≡ false
    → read_quoted (String.◌∷◌ c t) ≡ put c (read_quoted t)
unfolding read_quoted
read_quoted_plain c String.[] h = rw h refl
read_quoted_plain c (String.◌∷◌ d t) h = rw h refl

module _ (c : Char) (separates : is_separator c ≡ true) (rest : String) where
  read_quoted-double :
      (t : String)
      → read_quoted (String.◌++◌ (double_quotes t) (String.◌∷◌ "\"" (String.◌∷◌ c rest)))
        ≡ (t, String.◌∷◌ c rest)
  unfolding read_quoted double_quotes
  read_quoted-double String.[] =
      let no_quote : (code c == 34) ≡ false = ground arith in
      ap read_quoted (append.nil (String.◌∷◌ "\"" (String.◌∷◌ c rest))) ∙ rw no_quote refl
  read_quoted-double (String.◌∷◌ d t) = elim (Bool-cases (code d == 34)) [
    | inl quote ↦
        rw quote (rw append.cons (rw append.cons (rw quote (ap (put d) (read_quoted-double t)))))
    | inr plain ↦
        rw plain (rw append.cons (read_quoted_plain d _ plain ∙ ap (put d) (read_quoted-double t)))
  ]

  read_plain-append :
      (t : String)
      → has_special t ≡ false
      → has_return t ≡ false
      → read_plain (String.◌++◌ t (String.◌∷◌ c rest)) ≡ (t, String.◌∷◌ c rest)
  unfolding read_plain has_special has_return
  read_plain-append String.[] h n =
      ap read_plain (append.nil (String.◌∷◌ c rest)) ∙ rw separates refl
  read_plain-append (String.◌∷◌ d t) h n =
      let (plain, others) = ||-eq-false (is_csv_special d) (has_special t) h in
      let (no_return, here) = ||-eq-false (code d == 13) (has_return t) n in
      let no_end : is_separator d ≡ false = ground arith in
      rw append.cons (rw no_end (ap (put d) (read_plain-append t others here)))

  read_field_plain :
      (t : String)
      → has_special t ≡ false
      → has_return t ≡ false
      → read_field (String.◌++◌ t (String.◌∷◌ c rest)) ≡ (t, String.◌∷◌ c rest)
  unfolding read_field has_special has_return
  read_field_plain String.[] h n =
      let no_quote : (code c == 34) ≡ false = ground arith in
      ap read_field (append.nil (String.◌∷◌ c rest))
      ∙ rw no_quote (rw append.nil at (read_plain-append String.[] h n))
  read_field_plain (String.◌∷◌ d t) h n =
      let (plain, others) = ||-eq-false (is_csv_special d) (has_special t) h in
      let no_quote : (code d == 34) ≡ false = ground arith in
      rw append.cons (rw no_quote (rw append.cons at (read_plain-append (String.◌∷◌ d t) h n)))

  -- A field of the import template gives back its text, whatever commas, quotes and line feeds
  -- are in it, when a separator follows, to a reader that takes a quoted field up to its
  -- closing quote, with two quotes for one, and any other up to the first comma, carriage
  -- return or line feed, provided that a text with a carriage return has a comma, a quote or a
  -- line feed too.
  pub read_field-csv_field :
      (t : String)
      → (has_special t || not (has_return t)) ≡ true
      → read_field (String.◌++◌ (csv_field t) (String.◌∷◌ c rest)) ≡ (t, String.◌∷◌ c rest)
  unfolding read_field csv_field
  read_field-csv_field t known = elim (Bool-cases (has_special t)) [
    | inl special ↦ rw special (
        rw append.cons (
          ap read_quoted (
            append_assoc (double_quotes t) "\"" (String.◌∷◌ c rest)
            ∙ ap (λ s. String.◌++◌ (double_quotes t) s) (quote_append (String.◌∷◌ c rest)))
          ∙ read_quoted-double t))
    | inr plain ↦
        let no_return : has_return t ≡ false = ground (arith, known, plain) in
        rw plain (read_field_plain t plain no_return)
  ]
