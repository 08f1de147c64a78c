-- ===== src/Tests/Tenants.antt =====
-- A second organization with the name of the first, and what the two bring in.
use ceoma_api.Prelude.{◌≡◌, ◌⊎◌, ◌≤◌, ◌<◌, refl, ℕ, ◌+◌, none, some, [], ◌∷◌, String}
use ceoma_api.Errors.{err, api_error, text}
use ceoma_api.Access.{PlanTier}
use ceoma_api.Tenants.{
  Tenant, TenantPlan, TenantStatus, SubscriptionStatus, SuperAdmin, Directory, Draws, insert_tenant,
}
use ceoma_api.Tenants.Creation.{TenantInput, create_organization, new_tenant}
use ceoma_api.Tenants.Revenue.{get_revenue}
use ceoma_api.Tenants.Totals.{
  IsReportOf, get_revenue_lem, shown_mrr, plan_sum, past_due_price, get_revenue-derive_mrr,
}
use ceoma_api.Tenants.Slugs.{
  IsTidy, TakenFrom, EndsAt, insert_tenant_lem, create_organization-IsTidy,
}

abbrev tenant_a : Tenant
tenant_a = record {
  id = 1;
  name = "Kahawa";
  slug = "kahawa";
  country = none;
  status = TenantStatus.active;
  onboarded_by = none;
}

abbrev plan_a : TenantPlan
plan_a = record {
  id = 2;
  organization_id = 1;
  plan = PlanTier.growth;
  status = SubscriptionStatus.past_due;
  trial_ends_at = none;
}

abbrev staff : SuperAdmin
staff = record { id = 5; email = "staff@example.org"; password_hash = "h" }

abbrev directory_a : Directory
directory_a = record {
  tenants = tenant_a ∷ [];
  plans = plan_a ∷ [];
  users = [];
  super_admins = staff ∷ [];
  notes = [];
  impersonation_logs = [];
}

directory_a-IsTidy : IsTidy directory_a
directory_a-IsTidy = record { tenants = (refl, refl, tt); plans = (refl, tt); users = tt }

abbrev same : String → String
same t = t

abbrev draws : Draws
draws = record { tenant_id = λ n. n + 10; random_text = λ n. "77"; plan_id = 3; user_id = 4 }

abbrev again : TenantInput
again = record {
  name = "kahawa";
  slug = none;
  country = none;
  admin_full_name = "A";
  admin_email = "a@example.org";
  admin_password = "a password";
  plan = none;
  trial_days = none;
  onboarded_by = some 5;
}

insert_tenant_lem_example :
    (TakenFrom draws (new_tenant same same again) "kahawa" 0 6 directory_a
      × (insert_tenant draws (new_tenant same same again) "kahawa" 6 0 directory_a ≡ (
        err (api_error 409 (text "Unable to create organization. Try a different name.")),
        directory_a,
      )))
    ⊎ ((n : ℕ) × (0 ≤ n)
        × (n < 6)
        × TakenFrom draws (new_tenant same same again) "kahawa" 0 n directory_a
        × EndsAt draws
            (new_tenant same same again)
            "kahawa"
            n
            directory_a
            (insert_tenant draws (new_tenant same same again) "kahawa" 6 0 directory_a))
insert_tenant_lem_example =
    insert_tenant_lem draws (new_tenant same same again) "kahawa" 6 0 directory_a

create_organization-IsTidy_example :
    IsTidy (create_organization same same 1000 draws again directory_a).1
create_organization-IsTidy_example =
    create_organization-IsTidy same same 1000 draws again directory_a directory_a-IsTidy

get_revenue_lem_example : IsReportOf (plan_a ∷ []) (get_revenue directory_a)
get_revenue_lem_example = get_revenue_lem directory_a

get_revenue-derive_mrr_example :
    shown_mrr (plan_a ∷ []) ≡ (get_revenue directory_a).mrr + plan_sum past_due_price (plan_a ∷ [])
get_revenue-derive_mrr_example = get_revenue-derive_mrr directory_a
