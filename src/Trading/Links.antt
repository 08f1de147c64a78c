-- ===== src/Trading/Links.antt =====
-- No call breaks a foreign key of the allocations.
use ceoma_api.Prelude.{ℕ, ◌+ℤ◌, refl}
use ceoma_api.Sql.{owned}
use ceoma_api.Sql.Laws.{update-All}
use ceoma_api.Quantity.{numeric_3}
use ceoma_api.Store.{Store, LotStatus, lot_row, contract_row, allocation_row, AuthContext}
use ceoma_api.DbHelpers.Laws.{with_status}
use ceoma_api.Books.Links.{HasRow, find-HasRow, update-HasRow, cons-HasRow, IsLinked, IsLinked-grow}
use ceoma_api.Inventory.{StockAdjustmentInput, adjust_stock}
use ceoma_api.Inventory.Laws.{adjust_stock_keeps, weighed, rewritten}
use ceoma_api.Contracts.{
  ContractInput, AllocationInput, new_contract, create_contract, allocate_lot,
}
use ceoma_api.Contracts.Outcomes.{allocate_lot_keeps, moved, taken_from}
use ceoma_api.Contracts.Creation.{create_contract_keeps, created}
use ceoma_api.Shipments.{ShipmentCreateInput, is_listed, ship, create_shipment}
use ceoma_api.Shipments.Outcomes.{create_shipment_keeps, shipped_state}
use ceoma_api.Procurement.{
  AuctionLotInput, DirectDeliveryInput, put_lot, auction_lot, delivery_lot, create_auction_lot,
  create_direct_delivery,
}
use ceoma_api.Procurement.Auction.{create_auction_lot_keeps}
use ceoma_api.Procurement.Direct.{create_direct_delivery_keeps}

with_status-IsLinked :
    (lot_id org : ℕ) (status : LotStatus) (s : Store)
    → IsLinked s
    → IsLinked (with_status lot_id org status s)
with_status-IsLinked lot_id org status s h =
    IsLinked-grow s (with_status lot_id org status s)
      (λ id r.
        update-HasRow id (owned lot_id org) (λ l. record l { status = status }) s.lots (λ l. refl)
          r)
      (λ id r. r) refl h

pub adjust_stock-IsLinked :
    (adjustment_id : ℕ) (input : StockAdjustmentInput) (actor : AuthContext) (s : Store)
    → IsLinked s
    → IsLinked (adjust_stock adjustment_id input actor s).1
adjust_stock-IsLinked adjustment_id input actor s h =
    adjust_stock_keeps adjustment_id input actor s IsLinked h (λ l found fine.
      with_status-IsLinked input.lot_id actor.organization_id _
        (weighed adjustment_id input actor s l)
        (IsLinked-grow s (weighed adjustment_id input actor s l)
          (λ id r.
            update-HasRow id (owned input.lot_id actor.organization_id)
              (rewritten adjustment_id input actor s l) s.lots (λ x. refl) r)
          (λ id r. r) refl h))

pub create_contract-IsLinked :
    (contract_id : ℕ) (input : ContractInput) (actor : AuthContext) (s : Store)
    → IsLinked s
    → IsLinked (create_contract contract_id input actor s).1
create_contract-IsLinked contract_id input actor s h =
    create_contract_keeps contract_id input actor s IsLinked h (λ fresh.
      IsLinked-grow s (created contract_id input actor s) (λ id r. r)
        (λ id r. cons-HasRow id (new_contract contract_id input actor) s.contracts r) refl h)

pub allocate_lot-IsLinked :
    (allocation_id contract_id : ℕ) (input : AllocationInput) (actor : AuthContext) (s : Store)
    → IsLinked s
    → IsLinked (allocate_lot allocation_id contract_id input actor s).1
allocate_lot-IsLinked allocation_id contract_id input actor s h =
    allocate_lot_keeps allocation_id contract_id input actor s IsLinked h
      (λ c l found lot_found fits fits' new.
        let org = actor.organization_id in
        let lots = λ (id : ℕ) (r : HasRow id s.lots).
          update-HasRow id (owned input.lot_id org)
            (taken_from allocation_id contract_id input actor s) s.lots (λ x. refl) r in
        let contracts = λ (id : ℕ) (r : HasRow id s.contracts).
          update-HasRow id (owned contract_id org)
            (λ x. record x { allocated_kg = numeric_3 (x.allocated_kg +ℤ input.allocated_kg) })
            s.contracts (λ x. refl) r in
        let behind = record (moved allocation_id contract_id input actor s) {
          allocations = s.allocations;
        } in
        with_status-IsLinked input.lot_id org _ (moved allocation_id contract_id input actor s) (
          (
            lots input.lot_id (find-HasRow input.lot_id org s.lots lot_found),
            contracts contract_id (find-HasRow contract_id org s.contracts found),
          ),
          IsLinked-grow s behind lots contracts refl h,
        ))

pub create_shipment-IsLinked :
    (shipment_id today : ℕ) (input : ShipmentCreateInput) (actor : AuthContext) (s : Store)
    → IsLinked s
    → IsLinked (create_shipment shipment_id today input actor s).1
create_shipment-IsLinked shipment_id today input actor s h =
    create_shipment_keeps IsLinked
      (λ lot_id org status t k. with_status-IsLinked lot_id org status t k) (λ t rows k. k)
      shipment_id today input actor s h
      (λ c kg found accepted fits.
        update-All (is_listed shipment_id today input actor)
          (λ a.
            HasRow a.lot_id s.lots
            × HasRow a.contract_id (shipped_state shipment_id today input actor c kg s).contracts)
          (ship shipment_id today input actor) s.allocations (λ a p. p)
          (IsLinked-grow s
            (record (shipped_state shipment_id today input actor c kg s) {
              allocations = s.allocations;
            })
            (λ id r. r)
            (λ id r.
              update-HasRow id (owned input.contract_id actor.organization_id) _ s.contracts
                (λ x. refl) r)
            refl h))

pub create_auction_lot-IsLinked :
    (lot_id record_id : ℕ) (input : AuctionLotInput) (actor : AuthContext) (s : Store)
    → IsLinked s
    → IsLinked (create_auction_lot lot_id record_id input actor s).1
create_auction_lot-IsLinked lot_id record_id input actor s h =
    create_auction_lot_keeps lot_id record_id input actor s IsLinked h (λ fresh.
      IsLinked-grow s (put_lot (auction_lot lot_id record_id input actor) s)
        (λ id r. cons-HasRow id (auction_lot lot_id record_id input actor) s.lots r) (λ id r. r)
        refl h)

pub create_direct_delivery-IsLinked :
    (lot_id record_id : ℕ) (input : DirectDeliveryInput) (actor : AuthContext) (s : Store)
    → IsLinked s
    → IsLinked (create_direct_delivery lot_id record_id input actor s).1
create_direct_delivery-IsLinked lot_id record_id input actor s h =
    create_direct_delivery_keeps lot_id record_id input actor s IsLinked h (λ agreement fresh.
      IsLinked-grow s (put_lot (delivery_lot lot_id record_id input actor agreement) s)
        (λ id r. cons-HasRow id (delivery_lot lot_id record_id input actor agreement) s.lots r)
        (λ id r. r) refl h)
