-- ===== src/Access/Checks.antt =====
-- CSRF tokens: what is issued is accepted, and what a malformed signature does.
use Prim.Native.Char.{code}
use Prim.Native.String
use Prim.Native.String.append
use ceoma_api.Prelude.{
  ◌≡◌, ◌≢◌, refl, Bool, true, not, ◌&&◌, none, some, String, arith, Bool-cases, inl, inr, ◌==◌,
  str_eq, eq_iff, ap, ◌∙◌,
}
use mathlib.Core.Path.{ap₂}
use ceoma_api.Errors.{ok, err, other_error}
use ceoma_api.Http.{truthy}
use ceoma_api.Access.{
  cut_dot, timing_safe_equal, build_token, second_part, validate_parts, validate_token_shape,
  verify_tokens, verify_csrf_token,
}

-- No full stop in a text
abbrev pub is_dotless : String → Bool
is_dotless String.[] = true
is_dotless (String.◌∷◌ c t) = not (code c == b'.') && is_dotless t

cut_dot-none : (t : String) → is_dotless t ≡ true → cut_dot t ≡ (t, none)
unfolding cut_dot
cut_dot-none String.[] h = refl
cut_dot-none (String.◌∷◌ c t) h = ground (arith, cut_dot-none t)

cut_dot_join :
    (raw signature : String)
    → is_dotless raw ≡ true
    → cut_dot (String.◌++◌ raw (String.◌++◌ "." signature)) ≡ (raw, some signature)
unfolding cut_dot
cut_dot_join String.[] signature h = rw (append.nil, append.cons, append.nil) refl
cut_dot_join (String.◌∷◌ c t) signature h =
    rw append.cons (ground (arith, cut_dot_join t signature))

module _ (hmac : String → String) (raw : String) (plain : is_dotless raw ≡ true)
    (some_raw : raw ≢ "") where
  filled_given : (t : String) → t ≢ "" → truthy (some t) ≡ some t
  filled_given t filled = elim (Bool-cases (str_eq t "")) [
    | inl e ↦ absurd (filled ((eq_iff t "").0 e))
    | inr e ↦ rw e refl
  ]

  -- A token with any signature in place of its own is judged by that signature alone.
  shape_of :
      (signature : String)
      → is_dotless signature ≡ true
      → signature ≢ ""
      → validate_token_shape hmac (String.◌++◌ raw (String.◌++◌ "." signature))
        ≡ timing_safe_equal signature (hmac raw)
  unfolding validate_token_shape validate_parts second_part
  shape_of signature h filled =
      ap₂ (validate_parts hmac)
        (ap (λ p. truthy (some p.0)) (cut_dot_join raw signature plain) ∙ filled_given raw some_raw)
        (ap (λ p. second_part p.1) (cut_dot_join raw signature plain)
          ∙ ap (λ p. truthy (some p.0)) (cut_dot-none signature h)
          ∙ filled_given signature filled)

  safe_equal_own : (t : String) → timing_safe_equal t t ≡ ok true
  unfolding timing_safe_equal
  safe_equal_own t = let own : str_eq t t ≡ true = (eq_iff t t).1 refl in ground (arith, own)

  -- A token that was issued is accepted when the header repeats the cookie, for an HMAC whose
  -- texts are not empty and have no full stop, as base64url has none, and for random parts
  -- alike.
  pub verify-build_token :
      (token : String)
      → token ≡ build_token hmac raw
      → token ≢ ""
      → is_dotless (hmac raw) ≡ true
      → hmac raw ≢ ""
      → verify_csrf_token hmac (some token) (some token) ≡ ok tt
  unfolding verify_csrf_token verify_tokens build_token
  verify-build_token token issued given h filled =
      let shape : validate_token_shape hmac token ≡ ok true =
        ap (validate_token_shape hmac) issued
        ∙ shape_of (hmac raw) h filled
        ∙ safe_equal_own (hmac raw) in
      ap₂ (verify_tokens hmac) (filled_given token given) (filled_given token given)
      ∙ rw (verify_tokens, shape, safe_equal_own token) refl

  -- A header token of a random part that is not empty and has no full stop, followed by a full
  -- stop and a signature that is not empty and has none, is, when the cookie is not empty and
  -- the signature has another length than the right one, not answered by 403, as a wrong
  -- signature of the right length is, but by the error that the comparison throws.
  pub verify_short_signature :
      (header cookie signature : String)
      → header ≡ String.◌++◌ raw (String.◌++◌ "." signature)
      → header ≢ ""
      → cookie ≢ ""
      → is_dotless signature ≡ true
      → signature ≢ ""
      → String.len signature ≢ String.len (hmac raw)
      → verify_csrf_token hmac (some header) (some cookie) ≡ err other_error
  unfolding verify_csrf_token verify_tokens timing_safe_equal
  verify_short_signature header cookie signature made given given' h filled differ =
      let shape : validate_token_shape hmac header ≡ err other_error =
        ap (validate_token_shape hmac) made ∙ shape_of signature h filled ∙ ground arith in
      ap₂ (verify_tokens hmac) (filled_given header given) (filled_given cookie given')
      ∙ rw (verify_tokens, shape) refl
