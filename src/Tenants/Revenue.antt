-- ===== src/Tenants/Revenue.antt =====
-- `getRevenue` of src/modules/internal/internal.service.ts.
use ceoma_api.Prelude.{ℕ, ◌+◌, ◌*◌, Bool, true, false, ◌&&◌, List, [], ◌∷◌, if◌then◌else◌}
use ceoma_api.Access.{PlanTier}
use ceoma_api.Tenants.{TenantPlan, SubscriptionStatus, Directory}
use ceoma_api.Tenants.Admin.{plan_price}

abbrev pub same_plan : PlanTier → PlanTier → Bool
same_plan PlanTier.starter PlanTier.starter = true
same_plan PlanTier.growth PlanTier.growth = true
same_plan PlanTier.enterprise PlanTier.enterprise = true
same_plan _ _ = false

abbrev pub same_status : SubscriptionStatus → SubscriptionStatus → Bool
same_status SubscriptionStatus.trialing SubscriptionStatus.trialing = true
same_status SubscriptionStatus.active SubscriptionStatus.active = true
same_status SubscriptionStatus.past_due SubscriptionStatus.past_due = true
same_status SubscriptionStatus.cancelled SubscriptionStatus.cancelled = true
same_status _ _ = false

-- A row of the query: `plan`, `status`, `orgs`
pub record PlanGroup : Type 0 where
  pub plan : PlanTier
  pub status : SubscriptionStatus
  pub orgs : ℕ

-- An entry of `breakdown`; a plan with no subscription has none, which counts as zeros.
pub record PlanShare : Type 0 where
  pub orgs : ℕ
  pub mrr : ℕ

pub record Revenue : Type 0 where
  pub mrr : ℕ
  pub active_orgs : ℕ
  pub trialing_orgs : ℕ
  pub past_due_orgs : ℕ
  pub breakdown : PlanTier → PlanShare

-- One more subscription in its group of `GROUP BY plan, status`
unfoldable pub add_to_group : TenantPlan → List PlanGroup → List PlanGroup
add_to_group p [] = record { plan = p.plan; status = p.status; orgs = 1 } ∷ []
add_to_group p (g ∷ groups) =
    let later = add_to_group p groups in
    if same_plan g.plan p.plan && same_status g.status p.status
    then record g { orgs = g.orgs + 1 } ∷ groups
    else g ∷ later

unfoldable pub group_plans : List TenantPlan → List PlanGroup
unfolding add_to_group
group_plans [] = []
group_plans (p ∷ plans) = add_to_group p (group_plans plans)

abbrev pub no_revenue : Revenue
no_revenue = record {
  mrr = 0;
  active_orgs = 0;
  trialing_orgs = 0;
  past_due_orgs = 0;
  breakdown = λ _. record { orgs = 0; mrr = 0 };
}

-- `breakdown[plan].orgs += count` and, for an active subscription, `breakdown[plan].mrr += ...`
abbrev pub add_share : PlanTier → (orgs mrr : ℕ) → (PlanTier → PlanShare) → PlanTier → PlanShare
add_share plan orgs mrr breakdown other =
    if same_plan plan other
    then record { orgs = (breakdown other).orgs + orgs; mrr = (breakdown other).mrr + mrr }
    else breakdown other

-- The body of the loop
unfoldable pub add_group : Revenue → PlanGroup → Revenue
unfolding plan_price
add_group r g = elim g.status [
  | SubscriptionStatus.active ↦ record r {
    active_orgs = r.active_orgs + g.orgs;
    mrr = r.mrr + plan_price g.plan * g.orgs;
    breakdown = add_share g.plan g.orgs (plan_price g.plan * g.orgs) r.breakdown;
  }
  | SubscriptionStatus.trialing ↦ record r {
    trialing_orgs = r.trialing_orgs + g.orgs;
    breakdown = add_share g.plan g.orgs 0 r.breakdown;
  }
  | SubscriptionStatus.past_due ↦ record r {
    past_due_orgs = r.past_due_orgs + g.orgs;
    breakdown = add_share g.plan g.orgs 0 r.breakdown;
  }
  | SubscriptionStatus.cancelled ↦ record r { breakdown = add_share g.plan g.orgs 0 r.breakdown }
]

unfoldable pub add_groups : Revenue → List PlanGroup → Revenue
unfolding add_group
add_groups r [] = r
add_groups r (g ∷ groups) = add_groups (add_group r g) groups

-- `getRevenue`; `arr_run_rate` is twelve times `mrr`.
unfoldable pub get_revenue : Directory → Revenue
unfolding group_plans add_groups
get_revenue s = add_groups no_revenue (group_plans s.plans)
