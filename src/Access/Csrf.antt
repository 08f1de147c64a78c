-- ===== src/Access/Csrf.antt =====
-- src/common/security/csrf.ts and src/common/middleware/csrfProtection.ts: a token is a random text and
-- its signature, kept in a cookie and sent again in a header.
use Prim.Native.Char.{code}
use Prim.Native.String
use ceoma_api.Prelude.{
  Bool, true, false, Option, none, some, List, [], ◌∷◌, String, ◌==◌, str_eq, if◌then◌else◌, any,
}
use ceoma_api.Errors.{Failure, Result, ok, err, api_error, other_error, text}
use ceoma_api.Http.{Request, Method, first, truthy}

-- The text before the first dot, and what follows it if there is one.
unfoldable pub cut_dot : String → String × Option String
cut_dot String.[] = ("", none)
cut_dot (String.◌∷◌ c t) =
    let rest = cut_dot t in if code c == b'.' then ("", some t) else (String.◌∷◌ c rest.0, rest.1)

-- `timingSafeEqual` throws a RangeError when the lengths differ.
unfoldable pub timing_safe_equal : String → String → Result Bool
timing_safe_equal a b = if String.len a == String.len b then ok (str_eq a b) else err other_error

-- The part of a token after its first full stop, up to the next
unfoldable pub second_part : Option String → Option String
unfolding cut_dot
second_part none = none
second_part (some after) = truthy (some (cut_dot after).0)

-- A test that throws, or that must hold for what follows.
abbrev pub demand : Result Bool → Failure → Result (Unit {0}) → Result (Unit {0})
demand (err e) failure next = err e
demand (ok false) failure next = err failure
demand (ok true) failure next = next

-- `SAFE_METHODS`
abbrev pub is_safe : Method → Bool
is_safe Method.get = true
is_safe Method.head = true
is_safe Method.options = true
is_safe _ = false

-- `CSRF_EXEMPT_PATHS`
abbrev pub csrf_exempt_paths : List String
csrf_exempt_paths =
    "/api/v1/auth/login" ∷ "/api/v1/auth/register" ∷ "/api/v1/auth/refresh"
    ∷ "/api/v1/auth/csrf-token" ∷ []

-- `hmac` is the HMAC of `signToken`, in base64url.
module _ (hmac : String → String) where
  -- `buildToken`, on the random text that it draws
  unfoldable pub build_token : String → String
  build_token raw = String.◌++◌ raw (String.◌++◌ "." (hmac raw))

  unfoldable pub validate_parts : Option String → Option String → Result Bool
  unfolding timing_safe_equal
  validate_parts (some raw) (some signature) = timing_safe_equal signature (hmac raw)
  validate_parts _ _ = ok false

  -- `validateTokenShape`
  unfoldable pub validate_token_shape : String → Result Bool
  unfolding cut_dot validate_parts second_part
  validate_token_shape token =
      validate_parts (truthy (some (cut_dot token).0)) (second_part (cut_dot token).1)

  unfoldable pub verify_tokens : Option String → Option String → Result (Unit {0})
  unfolding validate_token_shape timing_safe_equal
  verify_tokens (some header) (some cookie) =
      demand (validate_token_shape header) (api_error 403 (text "Invalid CSRF token")) (
        demand (validate_token_shape cookie) (api_error 403 (text "Invalid CSRF token")) (
          demand (timing_safe_equal header cookie) (api_error 403 (text "CSRF token mismatch"))
            (ok tt)))
  verify_tokens _ _ = err (api_error 403 (text "CSRF token is required"))

  -- `verifyCsrfToken`
  unfoldable pub verify_csrf_token : Option String → Option String → Result (Unit {0})
  unfolding verify_tokens
  verify_csrf_token header_token cookie_token =
      verify_tokens (truthy header_token) (truthy cookie_token)

  -- `csrfProtection`
  unfoldable pub csrf_protection : Request → Result (Unit {0})
  unfolding verify_csrf_token
  csrf_protection req =
      if is_safe req.method
      then ok tt
      else if any (str_eq req.path) csrf_exempt_paths
      then ok tt
      else elim (truthy req.origin) [
        | none ↦ ok tt
        | some origin ↦ verify_csrf_token (first req.x_csrf_token) req.csrf_cookie
      ]
