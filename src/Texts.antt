-- ===== src/Texts.antt =====
-- The operations of JavaScript on texts that the code uses.
use Prim.Native.Char.{Char, code}
use ceoma_api.Prelude.{
  ℕ, suc, zero, ◌+◌, Bool, true, false, ◌&&◌, ◌||◌, Option, none, some, String, leb, ◌==◌, str_eq,
  if◌then◌else◌,
}

-- White space, as JavaScript counts it
abbrev pub is_space : Char → Bool
is_space c =
    let n = code c in
    (leb 9 n && leb n 13)
    || n == 32
    || n == 160
    || n == 5760
    || (leb 8192 n && leb n 8202)
    || n == 8232
    || n == 8233
    || n == 8239
    || n == 8287
    || n == 12288
    || n == 65279

unfoldable pub trim_start : String → String
trim_start String.[] = ""
trim_start (String.◌∷◌ c t) = if is_space c then trim_start t else String.◌∷◌ c t

unfoldable pub trim_end : String → String
trim_end String.[] = ""
trim_end (String.◌∷◌ c t) =
    let rest = trim_end t in if str_eq rest "" && is_space c then "" else String.◌∷◌ c rest

-- `trim`
unfoldable pub trim : String → String
unfolding trim_start trim_end
trim t = trim_end (trim_start t)

-- An equal character, or the upper case of it
abbrev pub same_letter : Char → Char → Bool
same_letter c d =
    code c == code d || (leb 65 (code c) && leb (code c) 90 && (code c + 32) == code d)

-- `scheme?.toLowerCase() === "bearer"`, for a second text in lower case
abbrev pub same_lower : String → String → Bool
same_lower String.[] String.[] = true
same_lower (String.◌∷◌ c s) (String.◌∷◌ d t) = same_letter c d && same_lower s t
same_lower _ _ = false

-- The text before the first space, and what follows it if there is one.
unfoldable pub cut : String → String × Option String
cut String.[] = ("", none)
cut (String.◌∷◌ c t) =
    let rest = cut t in if code c == 32 then ("", some t) else (String.◌∷◌ c rest.0, rest.1)

-- `slice(n)`
unfoldable pub slice_from : ℕ → String → String
slice_from zero t = t
slice_from (suc n) String.[] = ""
slice_from (suc n) (String.◌∷◌ c t) = slice_from n t
