-- ===== src/Tenants/Creation.antt =====
-- `InternalService.createOrganization`, up to the seeding of its bag types and grades, and
-- `AuthService.register`.
use ceoma_api.Prelude.{
  ℕ, ◌+◌, ◌*◌, true, false, Option, none, some, String, length, ltb, ◌==◌, str_eq, if◌then◌else◌,
  or_default,
}
use ceoma_api.Errors.{text, api_error, Result, ok, err}
use ceoma_api.Store.{
  AuthContext, UserRole, Tx, ◌>>=◌, ◌>>◌, pure, throw_if, lift, or_throw, with_transaction,
}
use ceoma_api.Texts.{trim}
use ceoma_api.Http.{truthy}
use ceoma_api.Access.{PlanTier, same_role}
use ceoma_api.Sessions.{UserRow}
use ceoma_api.Tenants.{
  Tenant, TenantPlan, TenantStatus, SubscriptionStatus, Directory, Draws, slugify_organization,
  insert_tenant, insert_user, add_plan,
}

-- The input of `createOrganization`
pub record TenantInput : Type 0 where
  pub name : String
  pub slug : Option String
  pub country : Option String
  pub admin_full_name : String
  pub admin_email : String
  pub admin_password : String
  pub plan : Option PlanTier
  pub trial_days : Option ℕ
  pub onboarded_by : Option ℕ

-- `RegisterInput`
pub record RegisterInput : Type 0 where
  pub email : String
  pub password : String
  pub full_name : String
  pub role : Option UserRole
  pub organization_name : Option String

abbrev pub day : ℕ
day = 86400000

abbrev pub trial_status : ℕ → SubscriptionStatus
trial_status days = if ltb 0 days then SubscriptionStatus.trialing else SubscriptionStatus.active

abbrev pub trimmed_slug : Option String → Option String
trimmed_slug none = none
trimmed_slug (some t) = some (trim t)

-- `input.slug?.trim() || slugifyOrganization(input.name)`
unfoldable pub base_slug : (String → String) → TenantInput → String
unfolding slugify_organization trim
base_slug lower input = elim (truthy (trimmed_slug input.slug)) [
  | none ↦ slugify_organization lower input.name
  | some slug ↦ slug
]

-- `hash_password` is `hashPassword`.
module _ (lower hash_password : String → String) where
  abbrev pub new_tenant : TenantInput → ℕ → String → Tenant
  new_tenant input id slug = record {
    id = id;
    name = input.name;
    slug = slug;
    country = input.country;
    status = TenantStatus.active;
    onboarded_by = input.onboarded_by;
  }

  abbrev pub new_plan : (now : ℕ) → Draws → TenantInput → ℕ → TenantPlan
  new_plan now draws input id =
      let trial_days = or_default input.trial_days 14 in
      record {
        id = draws.plan_id;
        organization_id = id;
        plan = or_default input.plan PlanTier.growth;
        status = trial_status trial_days;
        trial_ends_at = if ltb 0 trial_days then some (now + trial_days * day) else none;
      }

  abbrev pub new_admin : Draws → TenantInput → ℕ → UserRow
  new_admin draws input id = record {
    id = draws.user_id;
    email = lower input.admin_email;
    password_hash = hash_password input.admin_password;
    full_name = input.admin_full_name;
    role = UserRole.admin;
    is_active = true;
    organization_id = id;
    last_login_at = none;
  }

  -- The transaction of `createOrganization`, whose result is the identifier
  unfoldable pub create_organization : (now : ℕ) → Draws → TenantInput → Tx Directory ℕ
  unfolding with_transaction
  create_organization now draws input = with_transaction do
    throw_if (str_eq (base_slug lower input) "") (api_error 400 (text "Invalid organization name"))
    id ← insert_tenant draws (new_tenant input) (base_slug lower input) 6 0
    add_plan (new_plan now draws input id)
    insert_user (new_admin draws input id)
    pure id

  abbrev pub registered_tenant : String → ℕ → String → Tenant
  registered_tenant name id slug = record {
    id = id;
    name = name;
    slug = slug;
    country = none;
    status = TenantStatus.active;
    onboarded_by = none;
  }

  abbrev pub registered_plan : (now : ℕ) → Draws → ℕ → TenantPlan
  registered_plan now draws id = record {
    id = draws.plan_id;
    organization_id = id;
    plan = PlanTier.starter;
    status = SubscriptionStatus.trialing;
    trial_ends_at = some (now + 14 * day);
  }

  abbrev pub registered_user : Draws → RegisterInput → UserRole → ℕ → UserRow
  registered_user draws input role id = record {
    id = draws.user_id;
    email = lower input.email;
    password_hash = hash_password input.password;
    full_name = input.full_name;
    role = role;
    is_active = true;
    organization_id = id;
    last_login_at = none;
  }

  -- The organization of the first user
  unfoldable pub bootstrap : (now : ℕ) → Draws → Option String → Tx Directory ℕ
  bootstrap now draws organization_name = do
    name ←
        or_throw (truthy organization_name)
          (api_error 400 (text "organization_name is required for initial registration"))
    throw_if (str_eq (slugify_organization lower name) "")
        (api_error 400 (text "Invalid organization_name"))
    id ← insert_tenant draws (registered_tenant name) (slugify_organization lower name) 6 0
    add_plan (registered_plan now draws id)
    pure id

  -- Who may register a user once there are users
  abbrev pub registrar : Option AuthContext → Result AuthContext
  registrar none = err (api_error 401 (text "Authentication required to create new users"))
  registrar (some actor) =
      if same_role actor.role UserRole.admin
      then ok actor
      else err (api_error 403 (text "Only admin users can create accounts"))

  -- `register`: the count of users is read before the transaction.
  unfoldable pub register :
      (now : ℕ) → Draws → RegisterInput → Option AuthContext → Tx Directory UserRow
  unfolding bootstrap with_transaction
  register now draws input actor s = elim (length s.users == 0) [
    | true ↦
        (with_transaction do
          id ← bootstrap now draws input.organization_name
          insert_user (registered_user draws input UserRole.admin id)
          pure (registered_user draws input UserRole.admin id))
          s
    | false ↦
        (do
          admin ← lift (registrar actor)
          with_transaction do
            insert_user (
                registered_user draws input (or_default input.role UserRole.trader)
                  admin.organization_id)
            pure (
                registered_user draws input (or_default input.role UserRole.trader)
                  admin.organization_id))
          s
  ]
