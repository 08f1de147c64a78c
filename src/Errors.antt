-- ===== src/Errors.antt =====
-- Failures as values: src/common/errors/ApiError.ts, the database errors that the error handler
-- knows, and the response that src/common/middleware/errorHandler.ts makes of each.
use ceoma_api.Prelude.{
  ◌≡◌, refl, ◌⊎◌, inl, inr, ℕ, Bool, true, false, ◌||◌, String, str_eq, if◌then◌else◌,
}

-- The text of an error: fixed, or a template with the identifiers put in. A UUID is a number.
pub data Message : Type 0 where
  text : String → Message
  not_found : String → ℕ → Message
  about : String → ℕ → Message
  about_field : String → String → Message

-- What a handler can throw: a failed validation, an `ApiError`, an error of the upload parser, an error
-- of the `pg` driver with its code, an error whose message says that the database cannot be reached,
-- or any other.
pub data Failure : Type 0 where
  api_error : (status : ℕ) → Message → Failure
  pg_error : (code : String) → Failure
  zod_error multer_error unreachable_error other_error : Failure

pub data Result (A : Type 0) : Type 0 where
  ok : A → Result A
  err : Failure → Result A

module _ {A : Type 0} where
  abbrev pub is_ok : Result A → Bool
  is_ok (ok _) = true
  is_ok (err _) = false

-- Statements of code that throws.
infixl 5 ◌>>=◌ ◌>>◌
abbrev pub ◌>>=◌ : {A B : Type 0} → Result A → (A → Result B) → Result B
ok a >>= f = f a
err e >>= f = err e

abbrev pub ◌>>◌ : {B : Type 0} → Result (Unit {0}) → Result B → Result B
m >> k = m >>= λ _. k

-- `if (!b) throw e`
abbrev pub guard : Bool → Failure → Result (Unit {0})
guard true e = ok tt
guard false e = err e

-- The HTTP status that `errorHandler` answers with. An error with none of the known codes is
-- answered by 500.
unfoldable pub error_status : Failure → ℕ
error_status zod_error = 400
error_status (api_error status _) = status
error_status multer_error = 400
error_status (pg_error code) = if str_eq code "23505" || str_eq code "23503" then 409 else 500
error_status unreachable_error = 503
error_status other_error = 500

pub Result-cases :
    {A : Type 0} (r : Result A) → ((e : Failure) × (r ≡ err e)) ⊎ ((a : A) × (r ≡ ok a))
Result-cases (ok a) = inr (a, refl)
Result-cases (err e) = inl (e, refl)
