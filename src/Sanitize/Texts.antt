-- ===== src/Sanitize/Texts.antt =====
-- Clean texts, and what `sanitizeString` makes of a text (src/common/middleware/sanitizeInput.ts).
use Prim.Native.Char.{Char}
use ceoma_api.Prelude.{
  ◌≡◌, refl, ap, Bool, true, false, ◌&&◌, ◌||◌, String, str_eq, arith, Bool-cases, inl, inr,
  ||-eq-false, eq_iff,
}
use ceoma_api.Texts.{is_space, trim_start, trim_end, trim}
use ceoma_api.Sanitize.{is_control, is_null, remove, sanitize_string}

abbrev pub has_control : String → Bool
has_control String.[] = false
has_control (String.◌∷◌ c t) = is_control c || has_control t

abbrev pub starts_space : String → Bool
starts_space String.[] = false
starts_space (String.◌∷◌ c t) = is_space c

abbrev pub ends_space : String → Bool
ends_space String.[] = false
ends_space (String.◌∷◌ c String.[]) = is_space c
ends_space (String.◌∷◌ c (String.◌∷◌ d t)) = ends_space (String.◌∷◌ d t)

-- No control character, and no white space at either end.
abbrev pub IsCleanText : String → Type 0
IsCleanText t = (has_control t ≡ false) × (starts_space t ≡ false) × (ends_space t ≡ false)

has_control-remove : (t : String) → has_control (remove is_control t) ≡ false
unfolding remove
has_control-remove String.[] = refl
has_control-remove (String.◌∷◌ c t) = elim (Bool-cases (is_control c)) [
  | inl e ↦ rw e (has_control-remove t)
  | inr e ↦ rw e (rw e (has_control-remove t))
]

has_control-trim_start : (t : String) → has_control t ≡ false → has_control (trim_start t) ≡ false
unfolding trim_start
has_control-trim_start String.[] h = refl
has_control-trim_start (String.◌∷◌ c t) h = elim (Bool-cases (is_space c)) [
  | inl e ↦ rw e (has_control-trim_start t (||-eq-false _ _ h).1)
  | inr e ↦ rw e h
]

starts_space-trim_start : (t : String) → starts_space (trim_start t) ≡ false
unfolding trim_start
starts_space-trim_start String.[] = refl
starts_space-trim_start (String.◌∷◌ c t) = elim (Bool-cases (is_space c)) [
  | inl e ↦ rw e (starts_space-trim_start t)
  | inr e ↦ rw e e
]

starts_space-trim_end : (t : String) → starts_space t ≡ false → starts_space (trim_end t) ≡ false
unfolding trim_end
starts_space-trim_end String.[] h = refl
starts_space-trim_end (String.◌∷◌ c t) h =
    elim (Bool-cases (str_eq (trim_end t) "" && is_space c)) [ inl e ↦ rw e | inr e ↦ rw e h ]

has_control-trim_end : (t : String) → has_control t ≡ false → has_control (trim_end t) ≡ false
unfolding trim_end
has_control-trim_end String.[] h = refl
has_control-trim_end (String.◌∷◌ c t) h =
    let (front, back) = ||-eq-false (is_control c) (has_control t) h in
    elim (Bool-cases (str_eq (trim_end t) "" && is_space c)) [
      | inl e ↦ rw e
      | inr e ↦ rw e (rw front (has_control-trim_end t back))
    ]

ends_space-cons :
    (c : Char) (t : String)
    → (str_eq t "" && is_space c) ≡ false
    → ends_space t ≡ false
    → ends_space (String.◌∷◌ c t) ≡ false
ends_space-cons c String.[] h k = h
ends_space-cons c (String.◌∷◌ d t) h k = k

ends_space-trim_end : (t : String) → ends_space (trim_end t) ≡ false
unfolding trim_end
ends_space-trim_end String.[] = refl
ends_space-trim_end (String.◌∷◌ c t) = elim (Bool-cases (str_eq (trim_end t) "" && is_space c)) [
  | inl e ↦ rw e
  | inr e ↦ rw e (ends_space-cons c (trim_end t) e (ends_space-trim_end t))
]

-- Whatever the text, the result is clean.
pub sanitize_string-IsCleanText : (t : String) → IsCleanText (sanitize_string t)
unfolding sanitize_string trim
sanitize_string-IsCleanText t =
    let removed = remove is_control (remove is_null t) in
    (
      has_control-trim_end (trim_start removed)
          (has_control-trim_start removed (has_control-remove (remove is_null t))),
      starts_space-trim_end (trim_start removed) (starts_space-trim_start removed),
      ends_space-trim_end (trim_start removed),
    )

remove_fixed :
    (p : Char → Bool) (t : String)
    → ((c : Char) → is_control c ≡ false → p c ≡ false)
    → has_control t ≡ false
    → remove p t ≡ t
unfolding remove
remove_fixed p String.[] k h = refl
remove_fixed p (String.◌∷◌ c t) k h =
    let (front, back) = ||-eq-false _ _ h in
    rw (k c front) (ap (String.◌∷◌ c) (remove_fixed p t k back))

is_null-control : (c : Char) → is_control c ≡ false → is_null c ≡ false
is_null-control c h = ground arith

trim_start_fixed : (t : String) → starts_space t ≡ false → trim_start t ≡ t
unfolding trim_start
trim_start_fixed String.[] h = refl
trim_start_fixed (String.◌∷◌ c t) h = rw h

is_empty : String → Bool
is_empty String.[] = true
is_empty (String.◌∷◌ c t) = false

str_eq-cons_empty : (c : Char) (t : String) → str_eq (String.◌∷◌ c t) "" ≡ false
unfolding is_empty
str_eq-cons_empty c t = elim (Bool-cases (str_eq (String.◌∷◌ c t) "")) [
  | inl e ↦ let absurd_case : false ≡ true = ap is_empty ((eq_iff (String.◌∷◌ c t) "").0 e) in cc
  | inr e ↦ e
]

trim_end_fixed : (t : String) → ends_space t ≡ false → trim_end t ≡ t
unfolding trim_end
trim_end_fixed String.[] h = refl
trim_end_fixed (String.◌∷◌ c String.[]) h = rw h
trim_end_fixed (String.◌∷◌ c (String.◌∷◌ d t)) h =
    let rest : trim_end (String.◌∷◌ d t) ≡ String.◌∷◌ d t = trim_end_fixed (String.◌∷◌ d t) h in
    rw rest (rw (str_eq-cons_empty d t))

-- A clean text is left as it is.
pub sanitize_string_fixed : (t : String) → IsCleanText t → sanitize_string t ≡ t
unfolding sanitize_string trim
sanitize_string_fixed t (h, s, e) =
    rw
      (
        remove_fixed is_null t is_null-control h,
        remove_fixed is_control t (λ c k. k) h,
        trim_start_fixed t s,
      )
      (trim_end_fixed t e)

pub trim-trim : (t : String) → trim (trim t) ≡ trim t
unfolding trim
trim-trim t =
    let once = trim_end (trim_start t) in
    rw (trim_start_fixed once (starts_space-trim_end (trim_start t) (starts_space-trim_start t)))
      (trim_end_fixed once (ends_space-trim_end (trim_start t)))
