-- ===== src/Sessions.antt =====
-- src/modules/auth/auth.service.ts: signing in (`login`), renewing the tokens of a session (`refresh`)
-- and signing out (`logout`).
pub mod Revocation
pub mod Users
pub mod Keys
use ceoma_api.Prelude.{
  ℕ, Bool, not, ◌&&◌, ◌||◌, Option, none, some, List, ◌∷◌, String, leb, ◌==◌, str_eq, if◌then◌else◌,
  any, is_some,
}
use mathlib.Core.Option
use ceoma_api.Errors.{Result, ok, err, api_error, text}
use ceoma_api.Sql.{find, update}
use ceoma_api.Store.{
  AuthContext, UserRole, Tx, ◌>>=◌, ◌>>◌, pure, throw, gets, lift, or_throw, throw_if, modify,
  insert_unless, with_transaction,
}

-- `UserRow`, with `last_login_at`; times are milliseconds.
pub record UserRow : Type 0 where
  pub id : ℕ
  pub email : String
  pub password_hash : String
  pub full_name : String
  pub role : UserRole
  pub is_active : Bool
  pub organization_id : ℕ
  pub last_login_at : Option ℕ

pub record Session : Type 0 where
  pub id : ℕ
  pub user_id : ℕ
  pub refresh_token_hash : String
  pub expires_at : ℕ
  pub revoked_at : Option ℕ

pub record AuthStore : Type 0 where
  pub users : List UserRow
  pub sessions : List Session

-- What a token says: `sub`, `role`, `organizationId`, `sessionId`
pub record TokenClaims : Type 0 where
  pub sub : ℕ
  pub role : UserRole
  pub organization_id : ℕ
  pub session_id : ℕ

-- What a client gets: the two tokens and, from `mapUserPublic`, the user.
pub record Tokens : Type 0 where
  pub access_token : String
  pub refresh_token : String
  pub user : Option UserRow

abbrev pub session_by_id : ℕ → AuthStore → Option Session
session_by_id id s = find (λ x. x.id == id) s.sessions

abbrev pub user_row_by_id : ℕ → AuthStore → Option UserRow
user_row_by_id id s = find (λ u. u.id == id) s.users

abbrev pub write_sessions : (Session → Bool) → (Session → Session) → AuthStore → AuthStore
write_sessions p f s = record s { sessions = update p f s.sessions }

-- `SET revoked_at = NOW()`
abbrev pub revoke : ℕ → Session → Session
revoke now x = record x { revoked_at = some now }

-- The library and the environment: `signAccessToken`, `signRefreshToken`, `verifyRefreshToken`,
-- `hashSha256`, `verifyPasswordHash`, `toLowerCase`, and the `exp` of a token, of which `none` is a
-- token that cannot be decoded.
pub record Crypto : Type 0 where
  pub sign_access : TokenClaims → String
  pub sign_refresh : TokenClaims → String
  pub verify_refresh : String → Result TokenClaims
  pub hash : String → String
  pub verify_password : String → String → Bool
  pub lower : String → String
  pub decode_exp : String → Option (Option ℕ)

module _ (crypto : Crypto) where
  -- `getExpiryDateFromJwt`
  unfoldable pub expiry_of : String → Result ℕ
  expiry_of token = elim (crypto.decode_exp token) [
    | none ↦ err (api_error 500 (text "Unable to decode token expiry"))
    | some decoded ↦ elim decoded [
      | none ↦ err (api_error 500 (text "Token missing expiry"))
      | some exp ↦ ok exp
    ]
  ]

  abbrev pub claims_of : UserRow → ℕ → TokenClaims
  claims_of user session_id = record {
    sub = user.id;
    role = user.role;
    organization_id = user.organization_id;
    session_id = session_id;
  }

  -- The transaction of `login`
  unfoldable pub open_session : (now : ℕ) → Session → Tx AuthStore (Unit {0})
  unfolding update
  open_session now new = with_transaction do
    insert_unless (λ s. any (λ x. x.id == new.id) s.sessions)
        (λ s. record s { sessions = new ∷ s.sessions })
    modify (λ s. record s {
      users =
          update (λ u. u.id == new.user_id) (λ u. record u { last_login_at = some now }) s.users;
    })

  -- `login`; `session_id` is the UUID that it draws.
  unfoldable pub login : (now session_id : ℕ) → (email password : String) → Tx AuthStore Tokens
  unfolding find expiry_of open_session
  login now session_id email password = do
    user ←
        or_throw (← gets (λ s. find (λ u. str_eq u.email (crypto.lower email)) s.users))
          (api_error 401 (text "Invalid credentials"))
    throw_if (not user.is_active) (api_error 403 (text "User account is inactive"))
    throw_if (not (crypto.verify_password user.password_hash password))
        (api_error 401 (text "Invalid credentials"))
    let refresh_token = crypto.sign_refresh (claims_of user session_id)
    expires_at ← lift (expiry_of refresh_token)
    open_session now (record {
      id = session_id;
      user_id = user.id;
      refresh_token_hash = crypto.hash refresh_token;
      expires_at = expires_at;
      revoked_at = none;
    })
    pure (record {
      access_token = crypto.sign_access (claims_of user session_id);
      refresh_token = refresh_token;
      user = some user;
    })

  -- The end of `refresh`, once the session has passed every check: the session's user, and the tokens
  unfoldable pub rotate : Session → UserRow → Tx AuthStore Tokens
  unfolding find update expiry_of
  rotate session user = do
    let claims = record (claims_of user session.id) { sub = session.user_id }
    let new_refresh_token = crypto.sign_refresh claims
    new_expiry ← lift (expiry_of new_refresh_token)
    modify (
        write_sessions (λ x. x.id == session.id)
          (λ x. record x {
            refresh_token_hash = crypto.hash new_refresh_token;
            expires_at = new_expiry;
          }))
    refreshed ← gets (user_row_by_id session.user_id)
    pure (record {
      access_token = crypto.sign_access claims;
      refresh_token = new_refresh_token;
      user = refreshed;
    })

  -- The checks of `refresh` on the session and user that its query returns
  unfoldable pub check_session :
      (now : ℕ) → String → TokenClaims → Session → UserRow → Tx AuthStore Tokens
  unfolding rotate update
  check_session now token claims session user = do
    throw_if (not user.is_active || is_some session.revoked_at)
        (api_error 401 (text "Session is revoked"))
    throw_if (leb session.expires_at now) (api_error 401 (text "Session has expired"))
    throw_if (not (session.user_id == claims.sub)) (api_error 401 (text "Session user mismatch"))
    throw_if (not (user.organization_id == claims.organization_id))
        (api_error 401 (text "Session organization mismatch"))
    if str_eq (crypto.hash token) session.refresh_token_hash
        then rotate session user
        else (modify (write_sessions (λ x. x.id == session.id) (revoke now))
            >> throw (api_error 401 (text "Refresh token mismatch")))

  -- `refresh`
  unfoldable pub refresh : (now : ℕ) → String → Tx AuthStore Tokens
  unfolding find check_session
  refresh now token = do
    claims ← lift (crypto.verify_refresh token)
    session ←
        or_throw (← gets (session_by_id claims.session_id))
          (api_error 401 (text "Session not found"))
    user ←
        or_throw (← gets (user_row_by_id session.user_id))
          (api_error 401 (text "Session not found"))
    check_session now token claims session user

  abbrev pub is_admin : UserRole → Bool
  is_admin UserRole.admin = Bool.true
  is_admin _ = Bool.false

  -- `logout`
  unfoldable pub logout : (now : ℕ) → AuthContext → Option String → Tx AuthStore (Unit {0})
  unfolding update
  logout now actor none =
      modify (
        write_sessions (λ x. x.user_id == actor.user_id && not (is_some x.revoked_at)) (revoke now))
  logout now actor (some token) = do
    claims ← lift (crypto.verify_refresh token)
    throw_if (not (claims.sub == actor.user_id) && not (is_admin actor.role))
        (api_error 403 (text "You cannot revoke another user's session"))
    modify (write_sessions (λ x. x.id == claims.session_id) (revoke now))
