-- ===== src/Tenants/Totals.antt =====
-- The revenue report against the subscriptions themselves.
use ceoma_api.Prelude.{
  ◌≡◌, refl, ap, ◌∙◌, ℕ, ◌+◌, ◌*◌, Bool, true, ◌&&◌, some, List, [], ◌∷◌, or_default, if◌then◌else◌,
  arith, Bool-cases, inl, inr,
}
use ceoma_api.Access.{PlanTier}
use ceoma_api.Tenants.{TenantPlan, SubscriptionStatus, Directory}
use ceoma_api.Tenants.Admin.{plan_price, derive_mrr, is_active_plan, is_trialing, is_past_due}
use ceoma_api.Tenants.Revenue.{
  same_plan, same_status, PlanGroup, Revenue, add_to_group, group_plans, add_group, add_groups,
  get_revenue, no_revenue,
}

-- A sum over the subscriptions, of a number that the plan and the status give
pub plan_sum : (PlanTier → SubscriptionStatus → ℕ) → List TenantPlan → ℕ
plan_sum w [] = 0
plan_sum w (p ∷ plans) = w p.plan p.status + plan_sum w plans

group_sum : (PlanTier → SubscriptionStatus → ℕ) → List PlanGroup → ℕ
group_sum w [] = 0
group_sum w (g ∷ groups) = w g.plan g.status * g.orgs + group_sum w groups

same_plan_eq : (a b : PlanTier) → same_plan a b ≡ true → a ≡ b
same_plan_eq PlanTier.starter PlanTier.starter h = refl
same_plan_eq PlanTier.growth PlanTier.growth h = refl
same_plan_eq PlanTier.enterprise PlanTier.enterprise h = refl
same_plan_eq _ _ h = cc

same_status_eq : (a b : SubscriptionStatus) → same_status a b ≡ true → a ≡ b
same_status_eq SubscriptionStatus.trialing SubscriptionStatus.trialing h = refl
same_status_eq SubscriptionStatus.active SubscriptionStatus.active h = refl
same_status_eq SubscriptionStatus.past_due SubscriptionStatus.past_due h = refl
same_status_eq SubscriptionStatus.cancelled SubscriptionStatus.cancelled h = refl
same_status_eq _ _ h = cc

module _ (w : PlanTier → SubscriptionStatus → ℕ) where
  group_sum-add :
      (p : TenantPlan) (groups : List PlanGroup)
      → group_sum w (add_to_group p groups) ≡ w p.plan p.status + group_sum w groups
  unfolding group_sum add_to_group
  group_sum-add p [] = omega arith
  group_sum-add p (g ∷ groups) =
      elim (Bool-cases (same_plan g.plan p.plan && same_status g.status p.status)) [
        | inr other ↦ rw other (omega (arith, group_sum-add p groups))
        | inl same ↦
            let plan : g.plan ≡ p.plan = same_plan_eq g.plan p.plan (ground arith) in
            let status : g.status ≡ p.status = same_status_eq g.status p.status (ground arith) in
            let weight : w g.plan g.status ≡ w p.plan p.status = cc in
            rw same (rw (← weight) (grind arith))
      ]

  group_sum-group : (plans : List TenantPlan) → group_sum w (group_plans plans) ≡ plan_sum w plans
  unfolding group_sum group_plans plan_sum
  group_sum-group [] = refl
  group_sum-group (p ∷ plans) =
      group_sum-add p (group_plans plans) ∙ ap (λ n. w p.plan p.status + n) (group_sum-group plans)

  -- A number of the report that each group adds its weight to.
  add_groups-sum :
      (field : Revenue → ℕ)
      → ((r : Revenue) (g : PlanGroup)
          → field (add_group r g) ≡ field r + w g.plan g.status * g.orgs)
      → (r : Revenue) (groups : List PlanGroup)
      → field (add_groups r groups) ≡ field r + group_sum w groups
  unfolding add_groups group_sum
  add_groups-sum field step r [] = omega arith
  add_groups-sum field step r (g ∷ groups) =
      omega (arith, add_groups-sum field step (add_group r g) groups, step r g)

  report :
      (field : Revenue → ℕ)
      → field no_revenue ≡ 0
      → ((r : Revenue) (g : PlanGroup)
          → field (add_group r g) ≡ field r + w g.plan g.status * g.orgs)
      → (s : Directory) → field (get_revenue s) ≡ plan_sum w s.plans
  unfolding get_revenue
  report field start step s =
      add_groups-sum field step no_revenue (group_plans s.plans)
      ∙ omega (arith, start, group_sum-group s.plans)

abbrev pub one_if : Bool → ℕ
one_if b = if b then 1 else 0

abbrev pub active_price : PlanTier → SubscriptionStatus → ℕ
active_price plan status = if is_active_plan status then plan_price plan else 0

-- What the report should say.
pub record IsReportOf (plans : List TenantPlan) (r : Revenue) : Type 0 where
  pub mrr : r.mrr ≡ plan_sum active_price plans
  pub active : r.active_orgs ≡ plan_sum (λ _ status. one_if (is_active_plan status)) plans
  pub trialing : r.trialing_orgs ≡ plan_sum (λ _ status. one_if (is_trialing status)) plans
  pub past_due : r.past_due_orgs ≡ plan_sum (λ _ status. one_if (is_past_due status)) plans
  pub orgs_of :
      (plan : PlanTier)
      → (r.breakdown plan).orgs ≡ plan_sum (λ other _. one_if (same_plan other plan)) plans
  pub mrr_of :
      (plan : PlanTier)
      → (r.breakdown plan).mrr
        ≡ plan_sum
            (λ other status. if same_plan other plan then active_price other status else 0)
            plans

-- What a group adds to each number.
record Adds (r : Revenue) (plan : PlanTier) (status : SubscriptionStatus) (orgs : ℕ) (r' : Revenue)
    : Type 0 where
  pub mrr : r'.mrr ≡ r.mrr + active_price plan status * orgs
  pub active : r'.active_orgs ≡ r.active_orgs + one_if (is_active_plan status) * orgs
  pub trialing : r'.trialing_orgs ≡ r.trialing_orgs + one_if (is_trialing status) * orgs
  pub past_due : r'.past_due_orgs ≡ r.past_due_orgs + one_if (is_past_due status) * orgs
  pub orgs_of :
      (other : PlanTier)
      → (r'.breakdown other).orgs ≡ (r.breakdown other).orgs + one_if (same_plan plan other) * orgs
  pub mrr_of :
      (other : PlanTier)
      → (r'.breakdown other).mrr
        ≡ (r.breakdown other).mrr
          + (if same_plan plan other then active_price plan status else 0) * orgs

add_group-Adds :
    (r : Revenue) (plan : PlanTier) (status : SubscriptionStatus) (orgs : ℕ)
    → Adds r plan status orgs (add_group r (record { plan = plan; status = status; orgs = orgs }))
unfolding add_group
add_group-Adds r plan SubscriptionStatus.active orgs = record {
  mrr = grind arith;
  active = grind arith;
  trialing = grind arith;
  past_due = grind arith;
  orgs_of = λ other. elim (Bool-cases (same_plan plan other)) [
    | inl e ↦ rw e (grind arith)
    | inr e ↦ rw e (grind arith)
  ];
  mrr_of = λ other. elim (Bool-cases (same_plan plan other)) [
    | inl e ↦ rw e (grind arith)
    | inr e ↦ rw e (grind arith)
  ];
}
add_group-Adds r plan SubscriptionStatus.trialing orgs = record {
  mrr = grind arith;
  active = grind arith;
  trialing = grind arith;
  past_due = grind arith;
  orgs_of = λ other. elim (Bool-cases (same_plan plan other)) [
    | inl e ↦ rw e (grind arith)
    | inr e ↦ rw e (grind arith)
  ];
  mrr_of = λ other. elim (Bool-cases (same_plan plan other)) [
    | inl e ↦ rw e (grind arith)
    | inr e ↦ rw e (grind arith)
  ];
}
add_group-Adds r plan SubscriptionStatus.past_due orgs = record {
  mrr = grind arith;
  active = grind arith;
  trialing = grind arith;
  past_due = grind arith;
  orgs_of = λ other. elim (Bool-cases (same_plan plan other)) [
    | inl e ↦ rw e (grind arith)
    | inr e ↦ rw e (grind arith)
  ];
  mrr_of = λ other. elim (Bool-cases (same_plan plan other)) [
    | inl e ↦ rw e (grind arith)
    | inr e ↦ rw e (grind arith)
  ];
}
add_group-Adds r plan SubscriptionStatus.cancelled orgs = record {
  mrr = grind arith;
  active = grind arith;
  trialing = grind arith;
  past_due = grind arith;
  orgs_of = λ other. elim (Bool-cases (same_plan plan other)) [
    | inl e ↦ rw e (grind arith)
    | inr e ↦ rw e (grind arith)
  ];
  mrr_of = λ other. elim (Bool-cases (same_plan plan other)) [
    | inl e ↦ rw e (grind arith)
    | inr e ↦ rw e (grind arith)
  ];
}

-- The revenue report says of the subscriptions what it should: the revenue is the sum of the
-- prices of the active ones, the three counts are those of active, trialing and past due ones,
-- and for each plan the breakdown has its subscriptions and the prices of the active ones.
pub get_revenue_lem : (s : Directory) → IsReportOf s.plans (get_revenue s)
get_revenue_lem s = record {
  mrr =
      report active_price (λ r. r.mrr) refl (λ r g. (add_group-Adds r g.plan g.status g.orgs).mrr)
        s;
  active =
      report (λ _ status. one_if (is_active_plan status)) (λ r. r.active_orgs) refl
        (λ r g. (add_group-Adds r g.plan g.status g.orgs).active) s;
  trialing =
      report (λ _ status. one_if (is_trialing status)) (λ r. r.trialing_orgs) refl
        (λ r g. (add_group-Adds r g.plan g.status g.orgs).trialing) s;
  past_due =
      report (λ _ status. one_if (is_past_due status)) (λ r. r.past_due_orgs) refl
        (λ r g. (add_group-Adds r g.plan g.status g.orgs).past_due) s;
  orgs_of = λ plan.
      report (λ other _. one_if (same_plan other plan)) (λ r. (r.breakdown plan).orgs) refl
        (λ r g. (add_group-Adds r g.plan g.status g.orgs).orgs_of plan) s;
  mrr_of = λ plan.
      report (λ other status. if same_plan other plan then active_price other status else 0)
        (λ r. (r.breakdown plan).mrr) refl
        (λ r g. (add_group-Adds r g.plan g.status g.orgs).mrr_of plan) s;
}

-- What `derive_mrr` shows of the organizations is the revenue, and what is past due.
plan_sum-add :
    (v w : PlanTier → SubscriptionStatus → ℕ) (plans : List TenantPlan)
    → plan_sum (λ p t. v p t + w p t) plans ≡ plan_sum v plans + plan_sum w plans
unfolding plan_sum
plan_sum-add v w [] = refl
plan_sum-add v w (p ∷ plans) = omega (arith, plan_sum-add v w plans)

pub shown_mrr : List TenantPlan → ℕ
shown_mrr [] = 0
shown_mrr (p ∷ plans) = or_default (derive_mrr (some p)) 0 + shown_mrr plans

pub past_due_price : PlanTier → SubscriptionStatus → ℕ
past_due_price plan status = if is_past_due status then plan_price plan else 0

shown_split :
    (p : TenantPlan) (status : SubscriptionStatus)
    → p.status ≡ status
    → or_default (derive_mrr (some p)) 0
      ≡ active_price p.plan p.status + past_due_price p.plan p.status
unfolding derive_mrr past_due_price
shown_split p SubscriptionStatus.active e = rw e (omega arith)
shown_split p SubscriptionStatus.past_due e = rw e (omega arith)
shown_split p SubscriptionStatus.trialing e = rw e refl
shown_split p SubscriptionStatus.cancelled e = rw e refl

shown_sum :
    (plans : List TenantPlan)
    → shown_mrr plans ≡ plan_sum (λ p t. active_price p t + past_due_price p t) plans
unfolding shown_mrr plan_sum
shown_sum [] = refl
shown_sum (p ∷ plans) = omega (arith, shown_split p p.status refl, shown_sum plans)

-- The revenues shown for the single subscriptions add up to the revenue of the report and the
-- prices of those that are past due, which the report leaves out.
pub get_revenue-derive_mrr :
    (s : Directory) → shown_mrr s.plans ≡ (get_revenue s).mrr + plan_sum past_due_price s.plans
get_revenue-derive_mrr s = omega (
  arith,
  shown_sum s.plans,
  plan_sum-add active_price past_due_price s.plans,
  (get_revenue_lem s).mrr,
)
