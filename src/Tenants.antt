-- ===== src/Tenants.antt =====
-- The organizations and their subscriptions: how src/modules/internal/internal.service.ts
-- (`createOrganization`) and src/modules/auth/auth.service.ts (`register`) make one, with its slug, its
-- subscription and its first user. Times are milliseconds.
pub mod Creation
pub mod Admin
pub mod Slugs
pub mod Registration
pub mod Revenue
pub mod Totals
pub mod Outcomes
use Prim.Native.Char.{Char, code}
use Prim.Native.String
use mathlib.Core.Option
use ceoma_api.Prelude.{
  ℕ, zero, suc, ◌+◌, ◌-◌, ◌*◌, Bool, true, false, not, ◌&&◌, ◌||◌, Option, none, some, List, [],
  ◌∷◌, any, String, ltb, leb, ◌==◌, str_eq, if◌then◌else◌, or_default,
}
use ceoma_api.Errors.{text, api_error, pg_error, ok, err}
use ceoma_api.Sql.{find}
use ceoma_api.Store.{
  UserRole, Tx, ◌>>=◌, ◌>>◌, pure, throw, throw_if, modify, insert_unless, with_transaction,
}
use ceoma_api.Texts.{trim}
use ceoma_api.Access.{PlanTier}
use ceoma_api.Sessions.{UserRow}

pub data SubscriptionStatus : Type 0 where
  trialing active past_due cancelled : SubscriptionStatus

pub data TenantStatus : Type 0 where
  active suspended : TenantStatus

-- A row of organizations
pub record Tenant : Type 0 where
  pub id : ℕ
  pub name : String
  pub slug : String
  pub country : Option String
  pub status : TenantStatus
  pub onboarded_by : Option ℕ

-- A row of subscriptions
pub record TenantPlan : Type 0 where
  pub id : ℕ
  pub organization_id : ℕ
  pub plan : PlanTier
  pub status : SubscriptionStatus
  pub trial_ends_at : Option ℕ

-- `SuperAdminRow`
pub record SuperAdmin : Type 0 where
  pub id : ℕ
  pub email : String
  pub password_hash : String

-- A row of org_notes
pub record TenantNote : Type 0 where
  pub id : ℕ
  pub organization_id : ℕ
  pub super_admin_id : ℕ
  pub note : String

-- A row of impersonation_logs
pub record ImpersonationLog : Type 0 where
  pub id : ℕ
  pub organization_id : ℕ
  pub super_admin_id : ℕ

pub record Directory : Type 0 where
  pub tenants : List Tenant
  pub plans : List TenantPlan
  pub users : List UserRow
  pub super_admins : List SuperAdmin
  pub notes : List TenantNote
  pub impersonation_logs : List ImpersonationLog

-- `[a-z0-9]`
abbrev pub is_slug_char : Char → Bool
is_slug_char c =
    (leb b'a' (code c) && leb (code c) b'z') || (leb b'0' (code c) && leb (code c) b'9')

abbrev pub starts_with_dash : String → Bool
starts_with_dash String.[] = false
starts_with_dash (String.◌∷◌ c _) = code c == b'-'

-- `replace(/[^a-z0-9]+/g, "-")`
unfoldable pub dash : String → String
dash String.[] = ""
dash (String.◌∷◌ c t) =
    let rest = dash t in
    if is_slug_char c
    then String.◌∷◌ c rest
    else if starts_with_dash rest
    then rest
    else String.◌∷◌ "-" rest

-- `replace(/^-+|-+$/g, "")`, of a text with no two dashes together
unfoldable pub drop_first_dash : String → String
drop_first_dash String.[] = ""
drop_first_dash (String.◌∷◌ c t) = if code c == b'-' then t else String.◌∷◌ c t

unfoldable pub drop_last_dash : String → String
drop_last_dash String.[] = ""
drop_last_dash (String.◌∷◌ c String.[]) = if code c == b'-' then "" else String.◌∷◌ c ""
drop_last_dash (String.◌∷◌ c (String.◌∷◌ d t)) = String.◌∷◌ c (drop_last_dash (String.◌∷◌ d t))

-- `slice(0, n)`
unfoldable pub slice_to : ℕ → String → String
slice_to zero t = ""
slice_to (suc n) String.[] = ""
slice_to (suc n) (String.◌∷◌ c t) = String.◌∷◌ c (slice_to n t)

abbrev pub slug_taken : String → Directory → Bool
slug_taken slug s = any (λ t. str_eq t.slug slug) s.tenants

-- `INSERT INTO subscriptions ... ON CONFLICT (organization_id) DO NOTHING`
unfoldable pub add_plan : TenantPlan → Tx Directory (Unit {0})
add_plan p s =
    if any (λ q. q.organization_id == p.organization_id) s.plans
    then (ok tt, s)
    else if any (λ q. q.id == p.id) s.plans
    then (err (pg_error "23505"), s)
    else (ok tt, record s { plans = p ∷ s.plans })

-- The foreign key of `onboarded_by`
unfoldable pub lacks_onboarder : Tenant → Directory → Bool
lacks_onboarder t s = elim t.onboarded_by [
  | none ↦ false
  | some author ↦ not (any (λ a. a.id == author) s.super_admins)
]

-- What a request to create an organization draws: for each attempt a UUID and the text of a random
-- number below 10000, and a UUID for the subscription and for the user.
pub record Draws : Type 0 where
  pub tenant_id : ℕ → ℕ
  pub random_text : ℕ → String
  pub plan_id : ℕ
  pub user_id : ℕ

-- `lower` is `toLowerCase`.
module _ (lower : String → String) where
  -- `slugifyOrganization`, the same in both services
  unfoldable pub slugify_organization : String → String
  unfolding trim dash drop_first_dash drop_last_dash slice_to
  slugify_organization name =
      slice_to 48 (drop_last_dash (drop_first_dash (dash (lower (trim name)))))

-- The slug of an attempt
unfoldable pub slug_at : Draws → String → ℕ → String
slug_at draws base zero = base
slug_at draws base (suc n) = String.◌++◌ base (String.◌++◌ "-" (draws.random_text (suc n)))

-- The insert and the `while` loop: so many attempts are left. `make` is the row with a UUID and a slug.
unfoldable pub insert_tenant :
    Draws → (make : ℕ → String → Tenant) → (base : String) → (left attempt : ℕ) → Tx Directory ℕ
unfolding slug_at lacks_onboarder
insert_tenant draws make base zero attempt =
    throw (api_error 409 (text "Unable to create organization. Try a different name."))
insert_tenant draws make base (suc left) attempt =
    let again = insert_tenant draws make base left (attempt + 1) in
    let row = make (draws.tenant_id attempt) (slug_at draws base attempt) in
    λ s.
      if slug_taken (slug_at draws base attempt) s
      then again s
      else if any (λ t. t.id == draws.tenant_id attempt) s.tenants
      then (err (pg_error "23505"), s)
      else if lacks_onboarder row s
      then (err (pg_error "23503"), s)
      else (ok (draws.tenant_id attempt), record s { tenants = row ∷ s.tenants })

-- `INSERT INTO users`, with the unique index on the email
unfoldable pub insert_user : UserRow → Tx Directory (Unit {0})
insert_user u =
    insert_unless (λ s. any (λ v. v.id == u.id || str_eq v.email u.email) s.users)
      (λ s. record s { users = u ∷ s.users })
