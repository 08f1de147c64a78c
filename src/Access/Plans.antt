-- ===== src/Access/Plans.antt =====
-- What the limit of a plan is worth to the guarded operations.
use ceoma_api.Prelude.{ℕ, ◌≤◌, ◌<◌, ◌≡◌, some, arith, inl, inr, Bool-cases, leb}
use ceoma_api.Errors.{ok}
use ceoma_api.Sql.{count}
use ceoma_api.Store.{Store, AuthContext}
use ceoma_api.Procurement.{AuctionLotInput, create_auction_lot}
use ceoma_api.Procurement.Auction.{create_auction_lot_keeps}
use ceoma_api.Access.{Accounts, PlanResource, plan_limit, resolve_plan, count_resource, plan_guard}

module _ (actor : AuthContext) (accounts : Accounts) (trade : Store) where
  -- Under a limit the guard lets a request by only while there is room for one more.
  plan_guard_room :
      (resource : PlanResource) (limit : ℕ)
      → plan_limit (resolve_plan actor.organization_id accounts) resource ≡ some limit
      → plan_guard resource (some actor) accounts trade ≡ ok tt
      → count_resource resource actor.organization_id accounts trade < limit
  unfolding plan_guard
  plan_guard_room resource limit e =
      elim (Bool-cases (leb limit (count_resource resource actor.organization_id accounts trade))) [
        | inl full ↦ rw (plan_guard, e, full) (λ h. cc)
        | inr room ↦ λ h. ground arith
      ]

  -- A lot bought at auction after the guard let the request by, whatever the outcome, leaves
  -- the organization with no more lots than a plan with a limit on them allows, if nothing
  -- else came between.
  pub plan_guard-create_auction_lot :
      (limit lot_id record_id : ℕ) (input : AuctionLotInput)
      → plan_limit (resolve_plan actor.organization_id accounts) PlanResource.lots ≡ some limit
      → plan_guard PlanResource.lots (some actor) accounts trade ≡ ok tt
      → count_resource PlanResource.lots actor.organization_id accounts
          (create_auction_lot lot_id record_id input actor trade).1
        ≤ limit
  unfolding count_resource count
  plan_guard-create_auction_lot limit lot_id record_id input e passed =
      let room = plan_guard_room PlanResource.lots limit e passed in
      create_auction_lot_keeps lot_id record_id input actor trade
        (λ s. count_resource PlanResource.lots actor.organization_id accounts s ≤ limit)
        (omega (arith, room)) (λ fresh. ground (arith, room))
