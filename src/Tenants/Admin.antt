-- ===== src/Tenants/Admin.antt =====
-- What a super administrator does with an organization: the rest of
-- src/modules/internal/internal.service.ts but for its two listings of organizations, and
-- src/common/middleware/superAdminAuth.ts.
use package.text.Mathlib.Text.{starts_with}
use ceoma_api.Prelude.{
  ℕ, ◌+◌, ◌*◌, Bool, true, false, not, ◌&&◌, Option, none, some, List, [], ◌∷◌, ◌++◌, String, any,
  ltb, leb, ◌==◌, str_eq, if◌then◌else◌, or_default,
}
use ceoma_api.Errors.{text, api_error, pg_error, Result, ok, err}
use ceoma_api.Sql.{find, update, select, limit}
use ceoma_api.Store.{UserRole, Tx, ◌>>=◌, ◌>>◌, pure, throw_if, modify, gets, or_throw}
use ceoma_api.Texts.{trim, slice_from}
use ceoma_api.Access.{PlanTier, same_role}
use ceoma_api.Sessions.{UserRow}
use ceoma_api.Tenants.{
  Tenant, TenantPlan, TenantStatus, SubscriptionStatus, Directory, SuperAdmin, TenantNote,
}
use ceoma_api.Tenants.Creation.{day}

-- `PLAN_PRICING`
unfoldable pub plan_price : PlanTier → ℕ
plan_price PlanTier.starter = 99
plan_price PlanTier.growth = 299
plan_price PlanTier.enterprise = 1000

-- `deriveMrr`, of the plan and the status of a subscription, where there is one
unfoldable pub derive_mrr : Option TenantPlan → Option ℕ
unfolding plan_price
derive_mrr none = none
derive_mrr (some p) = elim p.status [
  | SubscriptionStatus.active ↦ some (plan_price p.plan)
  | SubscriptionStatus.past_due ↦ some (plan_price p.plan)
  | _ ↦ some 0
]

abbrev pub plan_of : ℕ → Directory → Option TenantPlan
plan_of org s = find (λ p. p.organization_id == org) s.plans

-- `UPDATE subscriptions ... WHERE organization_id = $1 RETURNING *`
unfoldable pub update_plan_row : ℕ → (TenantPlan → TenantPlan) → Tx Directory TenantPlan
unfolding find update
update_plan_row org f s = elim (plan_of org s) [
  | none ↦ (err (api_error 404 (text "Subscription not found")), s)
  | some p ↦ (ok (f p), record s { plans = update (λ p. p.organization_id == org) f s.plans })
]

-- `updatePlan`
unfoldable pub update_plan : ℕ → PlanTier → Option SubscriptionStatus → Tx Directory TenantPlan
unfolding update_plan_row
update_plan org plan status =
    update_plan_row org (λ p. record p { plan = plan; status = or_default status p.status })

-- The input of `extendTrial`, of which the schema wants one
pub data TrialInput : Type 0 where
  extend_days : ℕ → TrialInput
  ends_at : ℕ → TrialInput

-- `extendTrial`
unfoldable pub extend_trial : (now org : ℕ) → TrialInput → Tx Directory TenantPlan
unfolding update_plan_row
extend_trial now org (extend_days days) = update_plan_row org (λ p. record p {
  trial_ends_at = some (or_default p.trial_ends_at now + days * day);
  status = SubscriptionStatus.trialing;
})
extend_trial now org (ends_at date) =
    update_plan_row org
      (λ p. record p { trial_ends_at = some date; status = SubscriptionStatus.trialing })

-- `updateOrganizationStatus`
unfoldable pub update_organization_status : ℕ → TenantStatus → Tx Directory Tenant
unfolding find update
update_organization_status org status s = elim (find (λ t. t.id == org) s.tenants) [
  | none ↦ (err (api_error 404 (text "Organization not found")), s)
  | some t ↦ (
    ok (record t { status = status }),
    record s { tenants = update (λ t. t.id == org) (λ t. record t { status = status }) s.tenants },
  )
]

-- `addNote`: an organization or an administrator that is not there violates a foreign key.
unfoldable pub add_note : (note_id org super_admin_id : ℕ) → String → Tx Directory TenantNote
add_note note_id org super_admin_id note = do
  tenant_there ← gets (λ s. any (λ t. t.id == org) s.tenants)
  author_there ← gets (λ s. any (λ a. a.id == super_admin_id) s.super_admins)
  throw_if (not (tenant_there && author_there)) (pg_error "23503")
  modify (λ s. record s {
    notes =
        record { id = note_id; organization_id = org; super_admin_id = super_admin_id; note = note }
        ∷ s.notes;
  })
  pure
      (record { id = note_id; organization_id = org; super_admin_id = super_admin_id; note = note })

-- `ORDER BY id ASC LIMIT 1`
unfoldable pub lowest : List UserRow → Option UserRow
lowest [] = none
lowest (u ∷ rest) = elim (lowest rest) [
  | none ↦ some u
  | some v ↦ if ltb v.id u.id then some v else some u
]

abbrev pub is_active_admin : ℕ → UserRow → Bool
is_active_admin org u = u.organization_id == org && same_role u.role UserRole.admin && u.is_active

-- What `signAccessToken` is given by `impersonate`; the token lasts 15 minutes.
pub record Impersonation : Type 0 where
  pub user_id : ℕ
  pub role : UserRole
  pub organization_id : ℕ
  pub session_id : ℕ
  pub impersonated : Bool

abbrev pub impersonation_of : (org session_id : ℕ) → UserRow → Impersonation
impersonation_of org session_id u = record {
  user_id = u.id;
  role = UserRole.admin;
  organization_id = org;
  session_id = session_id;
  impersonated = true;
}

-- `impersonate`
unfoldable pub impersonate : (log_id session_id org super_admin_id : ℕ) → Tx Directory Impersonation
impersonate log_id session_id org super_admin_id = do
  candidate ← gets (λ s. lowest (select (is_active_admin org) s.users))
  user ← or_throw candidate (api_error 404 (text "No active admin user found for organization"))
  author_there ← gets (λ s. any (λ a. a.id == super_admin_id) s.super_admins)
  throw_if (not author_there) (pg_error "23503")
  modify (λ s. record s {
    impersonation_logs =
        record { id = log_id; organization_id = org; super_admin_id = super_admin_id }
        ∷ s.impersonation_logs;
  })
  pure (impersonation_of org session_id user)

-- `login`, whose result is signed into a token: `verify_password` is `verifyPasswordHash`.
unfoldable pub admin_login :
    (lower : String → String) (verify_password : String → String → Bool) (email password : String)
    → Tx Directory SuperAdmin
unfolding find
admin_login lower verify_password email password = do
  found ← gets (λ s. find (λ a. str_eq a.email (lower email)) s.super_admins)
  admin ← or_throw found (api_error 401 (text "Invalid credentials"))
  throw_if (not (verify_password admin.password_hash password))
      (api_error 401 (text "Invalid credentials"))
  pure admin

-- The claims of a super administrator's token
pub record SuperAdminClaims : Type 0 where
  pub sub : ℕ
  pub email : String

-- `requireSuperAdmin`: `verify` is `verifySuperAdminToken`.
unfoldable pub require_super_admin :
    (String → Result SuperAdminClaims) → Option String → Result SuperAdminClaims
unfolding trim slice_from
require_super_admin verify authorization =
    let header = or_default authorization "" in
    let token = if starts_with header "Bearer " then trim (slice_from 7 header) else "" in
    if str_eq token ""
    then err (api_error 401 (text "Super admin authorization required"))
    else verify token

pub data AlertKind : Type 0 where
  trial_expiring : ℕ → AlertKind
  payment_past_due : AlertKind

pub record Alert : Type 0 where
  pub kind : AlertKind
  pub organization_id : ℕ
  pub organization_name : String

abbrev pub is_trialing : SubscriptionStatus → Bool
is_trialing SubscriptionStatus.trialing = true
is_trialing _ = false

abbrev pub is_active_plan : SubscriptionStatus → Bool
is_active_plan SubscriptionStatus.active = true
is_active_plan _ = false

abbrev pub is_past_due : SubscriptionStatus → Bool
is_past_due SubscriptionStatus.past_due = true
is_past_due _ = false

-- `trial_ends_at IS NOT NULL AND trial_ends_at <= NOW() + INTERVAL '7 days'`
abbrev pub ends_within_week : ℕ → TenantPlan → Bool
ends_within_week now p = elim p.trial_ends_at [ none ↦ Bool.false | some t ↦ leb t (now + 7 * day) ]

-- `JOIN organizations o ON o.id = s.organization_id`
unfoldable pub alerts_of : (TenantPlan → AlertKind) → List Tenant → List TenantPlan → List Alert
unfolding find
alerts_of kind tenants [] = []
alerts_of kind tenants (p ∷ rest) = elim (find (λ t. t.id == p.organization_id) tenants) [
  | none ↦ alerts_of kind tenants rest
  | some t ↦
      record { kind = kind p; organization_id = t.id; organization_name = t.name }
      ∷ alerts_of kind tenants rest
]

-- `getAlerts`: `by_end` and `by_creation` are the orders of its two queries.
unfoldable pub get_alerts :
    (by_end by_creation : List TenantPlan → List TenantPlan) → (now : ℕ) → Directory → List Alert
unfolding select limit alerts_of
get_alerts by_end by_creation now s =
    limit 50 (
      alerts_of (λ p. AlertKind.trial_expiring (or_default p.trial_ends_at 0)) s.tenants
        (by_end (select (λ p. is_trialing p.status && ends_within_week now p) s.plans)))
    ++ limit 50 (
        alerts_of (λ p. AlertKind.payment_past_due) s.tenants
          (by_creation (select (λ p. is_past_due p.status) s.plans)))
