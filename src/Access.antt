-- ===== src/Access.antt =====
-- Who may make a request: src/common/middleware/auth.ts, planGuard.ts, ensureOrgActive.ts and
-- csrfProtection.ts, with src/common/security/csrf.ts.
mod AccountRows
mod Csrf
pub mod Identity
pub mod Plans
pub mod Checks
unfoldable pub use AccountRows.*
unfoldable pub use Csrf.*
use Prim.Native.Char.{Char, code}
use ceoma_api.Prelude.{
  ℕ, ◌+◌, Bool, true, false, not, ◌&&◌, ◌||◌, Option, none, some, List, [], ◌∷◌, String, ltb, leb,
  ◌==◌, str_eq, if◌then◌else◌, any, is_some,
}
use ceoma_api.Errors.{Result, ok, err, api_error, text, about}
use ceoma_api.Sql.{find, update, count}
use ceoma_api.Store.{
  Store, AuthContext, AuthType, UserRole, Tx, ◌>>=◌, ◌>>◌, pure, throw, gets, lift, or_throw,
  throw_if, modify,
}
use ceoma_api.Texts.{same_lower, cut}
use ceoma_api.Http.{Request, Method, is_mutating, first, truthy}

-- `parseBearerToken`
unfoldable pub parse_bearer_token : Option String → Option String
unfolding cut
parse_bearer_token header = elim (truthy header) [
  | none ↦ none
  | some h ↦
      let (scheme, rest) = cut h in
      elim rest [
        | none ↦ none
        | some r ↦ if same_lower scheme "bearer" then truthy (some (cut r).0) else none
      ]
]

-- `SELECT ... FROM users WHERE id = $1`
abbrev pub user_by_id : ℕ → Accounts → Option User
user_by_id id s = find (λ u. u.id == id) s.users

abbrev pub is_future : ℕ → Option ℕ → Bool
is_future now none = true
is_future now (some t) = ltb now t

-- The condition of the API key query, with its join
abbrev pub is_usable : ℕ → String → List User → ApiKey → Bool
is_usable now key_hash users k =
    str_eq k.key_hash key_hash
    && k.is_active
    && not (is_some k.revoked_at)
    && is_future now k.expires_at
    && any (λ u. u.id == k.user_id && u.is_active) users

-- The context of an access token, and of an API key
abbrev pub token_context : User → Claims → AuthContext
token_context user claims = record {
  auth_type = AuthType.jwt;
  user_id = user.id;
  role = user.role;
  organization_id = user.organization_id;
  session_id = some claims.session_id;
  api_key_id = none;
  impersonated = some claims.impersonated;
}

abbrev pub key_context : User → ApiKey → AuthContext
key_context user key = record {
  auth_type = AuthType.api_key;
  user_id = user.id;
  role = user.role;
  organization_id = user.organization_id;
  session_id = none;
  api_key_id = some key.id;
  impersonated = none;
}

-- `verify` is `verifyAccessToken`, `hash` is `hashSha256`.
module _ (verify : String → Result Claims) (hash : String → String) (now : ℕ) where
  unfoldable pub by_token : String → Tx Accounts (Option AuthContext)
  unfolding find
  by_token bearer = do
    claims ← lift (verify bearer)
    user ←
        or_throw (← gets (user_by_id claims.sub))
          (api_error 401 (text "User is inactive or missing"))
    throw_if (not user.is_active) (api_error 401 (text "User is inactive or missing"))
    throw_if (not (user.organization_id == claims.organization_id))
        (api_error 401 (text "Organization mismatch"))
    pure (some (token_context user claims))

  -- The query joins the key with its active user: `is_usable` keeps to the keys that have one, and the
  -- lookup after it finds that user.
  unfoldable pub by_key : String → Tx Accounts (Option AuthContext)
  unfolding find update
  by_key api_key = do
    key ←
        or_throw (← gets (λ s. find (is_usable now (hash api_key) s.users) s.api_keys))
          (api_error 401 (text "Invalid API key"))
    user ←
        or_throw (← gets (λ s. find (λ u. u.id == key.user_id && u.is_active) s.users))
          (api_error 401 (text "Invalid API key"))
    modify (λ s. record s {
      api_keys =
          update (λ k. k.id == key.id) (λ k. record k { last_used_at = some now }) s.api_keys;
    })
    pure (some (key_context user key))

  -- `resolveAuthContext`
  unfoldable pub resolve_auth_context : Request → Tx Accounts (Option AuthContext)
  unfolding by_token by_key parse_bearer_token
  resolve_auth_context req = elim (parse_bearer_token req.authorization) [
    | some bearer ↦ by_token bearer
    | none ↦ elim (truthy (first req.x_api_key)) [
      | some api_key ↦ by_key api_key
      | none ↦ pure none
    ]
  ]

  -- `authenticate`
  unfoldable pub authenticate : Request → Tx Accounts AuthContext
  unfolding resolve_auth_context
  authenticate req = do
    auth ← resolve_auth_context req
    or_throw auth (api_error 401 (text "Authentication required"))

abbrev pub same_role : UserRole → UserRole → Bool
same_role UserRole.admin UserRole.admin = true
same_role UserRole.trader UserRole.trader = true
same_role UserRole.warehouse UserRole.warehouse = true
same_role UserRole.finance UserRole.finance = true
same_role UserRole.compliance UserRole.compliance = true
same_role _ _ = false

-- `authorize`
unfoldable pub authorize : List UserRole → Option AuthContext → Result (Unit {0})
authorize allowed_roles none = err (api_error 401 (text "Authentication required"))
authorize allowed_roles (some auth) =
    if any (same_role auth.role) allowed_roles
    then ok tt
    else err (api_error 403 (text "Insufficient permissions"))

-- `ensureOrgActive`
unfoldable pub ensure_org_active : Request → Accounts → Result (Unit {0})
unfolding find
ensure_org_active req s = if not (is_mutating req.method) then ok tt else elim req.auth [
  | none ↦ ok tt
  | some auth ↦ elim (find (λ o. o.id == auth.organization_id) s.organizations) [
    | none ↦ ok tt
    | some o ↦ if o.is_active then ok tt else err (api_error 423 (text "Organization is suspended"))
  ]
]

pub data PlanResource : Type 0 where
  users lots api_keys : PlanResource

-- `PLAN_LIMITS`; `none` is infinity.
unfoldable pub plan_limit : PlanTier → PlanResource → Option ℕ
plan_limit PlanTier.starter PlanResource.users = some 3
plan_limit PlanTier.starter PlanResource.lots = some 50
plan_limit PlanTier.starter PlanResource.api_keys = some 0
plan_limit PlanTier.growth PlanResource.users = some 10
plan_limit PlanTier.growth PlanResource.lots = some 999
plan_limit PlanTier.growth PlanResource.api_keys = some 5
plan_limit PlanTier.enterprise _ = none

-- `resolvePlan`
unfoldable pub resolve_plan : ℕ → Accounts → PlanTier
unfolding find
resolve_plan org s = elim (find (λ p. p.organization_id == org) s.subscriptions) [
  | none ↦ PlanTier.starter
  | some p ↦ p.plan
]

-- `countUsers`, `countLots`, `countApiKeys`
unfoldable pub count_resource : PlanResource → ℕ → Accounts → Store → ℕ
unfolding count
count_resource PlanResource.users org s trade =
    count (λ u. u.organization_id == org && u.is_active) s.users
count_resource PlanResource.lots org s trade = count (λ l. l.organization_id == org) trade.lots
count_resource PlanResource.api_keys org s trade =
    count
      (λ k.
        any (λ u. u.id == k.user_id && u.organization_id == org) s.users
        && k.is_active
        && not (is_some k.revoked_at))
      s.api_keys

-- The words after `Upgrade your plan to add more`
abbrev pub resource_words : PlanResource → String
resource_words PlanResource.users = "users"
resource_words PlanResource.lots = "lots"
resource_words PlanResource.api_keys = "api keys"

-- `planGuard`
unfoldable pub plan_guard : PlanResource → Option AuthContext → Accounts → Store → Result (Unit {0})
unfolding plan_limit resolve_plan count_resource
plan_guard resource none s trade = ok tt
plan_guard resource (some auth) s trade =
    elim (plan_limit (resolve_plan auth.organization_id s) resource) [
      | none ↦ ok tt
      | some limit ↦
          if leb limit (count_resource resource auth.organization_id s trade)
          then err (api_error 402 (text (resource_words resource)))
          else ok tt
    ]
