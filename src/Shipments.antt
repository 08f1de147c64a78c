-- ===== src/Shipments.antt =====
-- src/modules/shipments/shipments.service.ts: creating a shipment (`createShipment`) and moving its
-- status on (`updateStatus`). The notifications that follow are results here.
mod Loops
pub mod Outcomes
pub mod Soundness
pub mod Sums
pub mod Balance
pub mod Progress
unfoldable pub use Loops.*
use ceoma_api.Prelude.{
  ℕ, ℤ, pos, ◌+ℤ◌, ◌-ℤ◌, ltb_ℤ, ltb, Bool, not, ◌||◌, ◌&&◌, Option, none, some, List, ◌∷◌, map,
  String, ◌==◌, str_eq, if◌then◌else◌, any, length, distinct, or_default,
}
use mathlib.Core.Option
use ceoma_api.Errors.{api_error, not_found, text, ok, err}
use ceoma_api.Sql.{owned, find, select, update}
use ceoma_api.Quantity.{epsilon, numeric_3}
use ceoma_api.Store.{
  Store, Lot, Contract, Allocation, Shipment, Snapshot, SnapshotLot, AllocationStatus,
  ShipmentStatus, ContractStatus, lot_row, contract_row, allocation_row, shipment_row, AuthContext,
  Tx, ◌>>=◌, ◌>>◌, pure, gets, or_throw, throw_if, lift, modify, insert_unless, with_transaction,
}
use ceoma_api.DbHelpers.{next_contract_status, progression_index}

-- `ShipmentCreateInput`
pub record ShipmentCreateInput : Type 0 where
  pub shipment_number : String
  pub contract_id : ℕ
  pub container_number : Option String
  pub seal_number : Option String
  pub planned_departure : Option ℕ
  pub allocation_ids : List ℕ

-- What `createShipment` hands on from its transaction
pub record CreatedShipment : Type 0 where
  pub shipment : Option Shipment
  pub contract_number : String
  pub lot_codes : List String

-- `today` is the day of `new Date()`.
module _ (shipment_id today : ℕ) (input : ShipmentCreateInput) (actor : AuthContext) where
  abbrev pub new_shipment : Shipment
  new_shipment = record {
    id = shipment_id;
    organization_id = actor.organization_id;
    shipment_number = input.shipment_number;
    contract_id = input.contract_id;
    status = ShipmentStatus.planned;
    container_number = input.container_number;
    seal_number = input.seal_number;
    planned_departure = input.planned_departure;
    actual_departure = none;
    traceability_snapshot = none;
  }

  -- The primary key, and `uniq_shipments_org_number`
  abbrev pub shipment_clash : Store → Bool
  shipment_clash s =
      any
        (λ r.
          r.id == shipment_id
          || (r.organization_id == actor.organization_id
              && str_eq r.shipment_number input.shipment_number))
        s.shipments

  abbrev pub unique_ids : List ℕ
  unique_ids = distinct ◌==◌ input.allocation_ids

  -- `id = ANY($1::uuid[]) AND organization_id = $2`
  abbrev pub is_listed : Allocation → Bool
  is_listed a = any (λ id. a.id == id) unique_ids && a.organization_id == actor.organization_id

  abbrev pub insert_shipment : Store → Store
  insert_shipment s = record s { shipments = new_shipment ∷ s.shipments }

  -- `UPDATE allocations SET status = 'shipped', shipment_id = $1`
  abbrev pub ship : Allocation → Allocation
  ship a = record a { status = AllocationStatus.shipped; shipment_id = some shipment_id }

  abbrev pub ship_allocations : Store → Store
  ship_allocations s = record s { allocations = update is_listed ship s.allocations }

  -- `UPDATE contracts SET shipped_kg = $1, status = $2`
  abbrev pub set_shipped : ℤ → ContractStatus → Store → Store
  set_shipped new_shipped status s = record s {
    contracts =
        update (owned input.contract_id actor.organization_id)
          (λ c. record c { shipped_kg = numeric_3 new_shipped; status = status }) s.contracts;
  }

  abbrev pub snapshot_of : Contract → List SnapshotLot → Snapshot
  snapshot_of contract lots = record {
    contract_id = input.contract_id;
    contract_number = contract.contract_number;
    shipment_number = input.shipment_number;
    created_on = today;
    lots = lots;
  }

  -- `UPDATE shipments SET traceability_snapshot = $1`
  abbrev pub set_snapshot : Snapshot → Store → Store
  set_snapshot snapshot s = record s {
    shipments =
        update (owned shipment_id actor.organization_id)
          (λ r. record r { traceability_snapshot = some snapshot }) s.shipments;
  }

  -- The rest of `createShipment` after the allocations are checked and `shipmentKg` is added up.
  unfoldable pub fulfil : Contract → ℤ → Tx Store CreatedShipment
  unfolding find update
  fulfil contract shipment_kg = do
    let new_shipped = contract.shipped_kg +ℤ shipment_kg
    throw_if (ltb_ℤ epsilon (new_shipped -ℤ contract.quantity_kg))
        (api_error 409 (text "Shipment would over-fulfill contract"))
    modify ship_allocations
    modify (
        set_shipped new_shipped
          (next_contract_status new_shipped contract.quantity_kg contract.status))
    lots ← gets (λ s. join_lots s.lots (order_by_id (select is_listed s.allocations)))
    refresh_all actor.organization_id (distinct ◌==◌ (map (λ row. row.lot_id) lots))
    modify (set_snapshot (snapshot_of contract lots))
    final ← gets (λ s. find (owned shipment_id actor.organization_id) s.shipments)
    pure (record {
      shipment = final;
      contract_number = contract.contract_number;
      lot_codes = distinct str_eq (non_empty (map (λ row. row.lot_code) lots));
    })

  -- The statements of `createShipment` after the shipment is inserted.
  unfoldable pub ship_contract : Contract → Tx Store CreatedShipment
  unfolding select
  ship_contract contract = do
    rows ← gets (λ s. select is_listed s.allocations)
    throw_if (not (length rows == length unique_ids))
        (api_error 404 (text "One or more allocations do not exist"))
    shipment_kg ← lift (check_allocations input.contract_id (pos 0) rows)
    fulfil contract shipment_kg

  -- `createShipment`; `shipment_id` is the UUID that it draws.
  unfoldable pub create_shipment : Tx Store CreatedShipment
  unfolding find
  create_shipment = with_transaction do
    contract ←
        or_throw (← gets (λ s. find (owned input.contract_id actor.organization_id) s.contracts))
          (api_error 404 (not_found "Contract" input.contract_id))
    insert_unless shipment_clash insert_shipment
    ship_contract contract

-- `ShipmentStatusInput`
pub record ShipmentStatusInput : Type 0 where
  pub status : ShipmentStatus
  pub actual_departure : Option ℕ

module _ (shipment_id : ℕ) (input : ShipmentStatusInput) (actor : AuthContext) where
  -- `UPDATE shipments SET status = $1, actual_departure = COALESCE($2::date, actual_departure)`
  abbrev pub advance : Shipment → Shipment
  advance r = record r {
    status = input.status;
    actual_departure = coalesce input.actual_departure r.actual_departure;
  }

  -- `updateStatus`, with the contract number for the notification, `none` where the code falls back
  -- on the identifier
  unfoldable pub update_status : Tx Store (Shipment × Option String)
  unfolding find update
  update_status = with_transaction do
    shipment ←
        or_throw (← gets (λ s. find (owned shipment_id actor.organization_id) s.shipments))
          (api_error 404 (not_found "Shipment" shipment_id))
    throw_if (ltb (progression_index input.status) (progression_index shipment.status))
        (api_error 409 (text "Shipment status cannot move backwards"))
    modify (λ s. record s {
      shipments = update (owned shipment_id actor.organization_id) advance s.shipments;
    })
    contract ← gets (λ s. find (owned shipment.contract_id actor.organization_id) s.contracts)
    pure (advance shipment, Option.map (λ c. c.contract_number) contract)
