-- ===== src/Pagination/Like.antt =====
-- `ILIKE '%' || term || '%' ESCAPE '\'`, with the term escaped by `escapeLikeQuery`, as the list
-- endpoints search.
use Prim.Native.Char.{Char, code}
use Prim.Native.String
use Prim.Native.String.append
use ceoma_api.Prelude.{
  ◌≡◌, refl, ap, ◌∙◌, Bool, true, false, ◌&&◌, ◌||◌, List, [], ◌∷◌, ◌++◌, String, ◌==◌,
  if◌then◌else◌, arith, Bool-cases, inl, inr,
}
use ceoma_api.Pagination.{escape_like_query, is_special}

-- A part of a pattern: `%`, `_`, or a character.
pub data Part : Type 0 where
  any_text any_char : Part
  char : Char → Part

-- A character after the escape character, or with no special meaning, stands for itself.
abbrev part_of : Char → Part
part_of c = if code c == b'%' then any_text else if code c == b'_' then any_char else char c

-- The parts of a pattern. One that ends in the escape character is an error of the database; it has
-- no part for it here.
unfoldable pub parts : String → List Part
parts String.[] = []
parts (String.◌∷◌ c String.[]) = if code c == 92 then [] else part_of c ∷ []
parts (String.◌∷◌ c (String.◌∷◌ d t)) =
    let escaped = char d ∷ parts t in
    let plain = part_of c ∷ parts (String.◌∷◌ d t) in if code c == 92 then escaped else plain

-- `same` is equality of characters but for their case.
module _ (same : Char → Char → Bool) where
  unfoldable pub matches : List Part → String → Bool
  matches [] String.[] = true
  matches [] (String.◌∷◌ c s) = false
  matches (any_text ∷ p) String.[] = matches p ""
  matches (any_text ∷ p) (String.◌∷◌ c s) = matches p (String.◌∷◌ c s) || matches (any_text ∷ p) s
  matches (any_char ∷ p) String.[] = false
  matches (any_char ∷ p) (String.◌∷◌ c s) = matches p s
  matches (char d ∷ p) String.[] = false
  matches (char d ∷ p) (String.◌∷◌ c s) = same d c && matches p s

  -- `text ILIKE pattern ESCAPE '\'`
  unfoldable pub ilike : (text pattern : String) → Bool
  unfolding matches parts
  ilike text pattern = matches (parts pattern) text

  unfoldable pub starts : (term text : String) → Bool
  starts String.[] s = true
  starts (String.◌∷◌ d t) String.[] = false
  starts (String.◌∷◌ d t) (String.◌∷◌ c s) = same d c && starts t s

  -- Whether the term stands anywhere in the text.
  unfoldable pub occurs : (term text : String) → Bool
  unfolding starts
  occurs t String.[] = starts t ""
  occurs t (String.◌∷◌ c s) = starts t (String.◌∷◌ c s) || occurs t s

-- The parts that an escaped term should have: its characters.
abbrev chars : String → List Part
chars String.[] = []
chars (String.◌∷◌ c t) = char c ∷ chars t

parts_plain :
    (c : Char) (t : String) → is_special c ≡ false → parts (String.◌∷◌ c t) ≡ char c ∷ parts t
unfolding parts
parts_plain c String.[] h = ground arith
parts_plain c (String.◌∷◌ d t) h = ground arith

parts_any : (t : String) → parts (String.◌++◌ "%" t) ≡ any_text ∷ parts t
unfolding parts
parts_any t = rw (append.cons, append.nil) (go t)
  where
    go : (t : String) → parts (String.◌∷◌ "%" t) ≡ any_text ∷ parts t
    go String.[] = refl
    go (String.◌∷◌ c t) = refl

parts-escape :
    (t : String) → parts (String.◌++◌ (escape_like_query t) "%") ≡ chars t ++ any_text ∷ []
unfolding parts escape_like_query
parts-escape String.[] = ap parts (append.nil "%")
parts-escape (String.◌∷◌ c t) = elim (Bool-cases (is_special c)) [
  | inl special ↦
      let backslash : Char = "\\" in
      let rest = String.◌++◌ (escape_like_query t) "%" in
      let e : parts (String.◌∷◌ backslash (String.◌∷◌ c rest)) ≡ char c ∷ parts rest = refl in
      rw special (rw append.cons (rw append.cons (e ∙ ap (λ l. char c ∷ l) (parts-escape t))))
  | inr plain ↦
      rw plain (rw append.cons (parts_plain c _ plain ∙ ap (λ l. char c ∷ l) (parts-escape t)))
]

module _ (same : Char → Char → Bool) where
  matches_rest : (s : String) → matches same (any_text ∷ []) s ≡ true
  unfolding matches
  matches_rest String.[] = refl
  matches_rest (String.◌∷◌ c s) = matches_rest s

  matches-starts : (t s : String) → matches same (chars t ++ any_text ∷ []) s ≡ starts same t s
  unfolding matches starts
  matches-starts String.[] s = matches_rest s
  matches-starts (String.◌∷◌ d t) String.[] = refl
  matches-starts (String.◌∷◌ d t) (String.◌∷◌ c s) = ap (λ b. same d c && b) (matches-starts t s)

  matches-occurs :
      (t s : String) → matches same (any_text ∷ (chars t ++ any_text ∷ [])) s ≡ occurs same t s
  unfolding matches occurs
  matches-occurs t String.[] = matches-starts t ""
  matches-occurs t (String.◌∷◌ c s) =
      rw (matches-starts t (String.◌∷◌ c s)) (rw (matches-occurs t s))

  -- ILIKE with an escaped search term between two percent signs finds exactly the texts in
  -- which the term occurs, with its percent signs, underscores and backslashes taken as they
  -- are.
  pub ilike-escape :
      (term text : String)
      → ilike same text (String.◌++◌ "%" (String.◌++◌ (escape_like_query term) "%"))
        ≡ occurs same term text
  unfolding ilike
  ilike-escape term text =
      ap (λ p. matches same p text)
        (parts_any (String.◌++◌ (escape_like_query term) "%")
          ∙ ap (λ l. any_text ∷ l) (parts-escape term))
      ∙ matches-occurs term text
