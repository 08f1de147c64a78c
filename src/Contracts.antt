-- ===== src/Contracts.antt =====
-- src/modules/contracts/contracts.service.ts: creating a contract (`createContract`) and allocating
-- a lot to it (`allocateLot`). The notifications that follow the transactions are results here.
pub mod Outcomes
pub mod Soundness
pub mod Balance
pub mod Creation
pub mod Notices
pub mod HalfGrams
use ceoma_api.Prelude.{
  ℕ, ℤ, pos, ◌+ℤ◌, ◌-ℤ◌, ltb_ℤ, leb_ℤ, Bool, ◌||◌, ◌&&◌, Option, none, some, List, ◌∷◌, String,
  ◌==◌, str_eq, if◌then◌else◌, any, is_some,
}
use mathlib.Core.Option
use ceoma_api.Errors.{api_error, not_found, text, ok, err}
use ceoma_api.Sql.{owned, find, update}
use ceoma_api.Quantity.{epsilon, numeric_3, numeric_4}
use ceoma_api.Store.{
  Store, Lot, Contract, Allocation, Reference, AllocationStatus, lot_row, contract_row,
  reference_row, AuthContext, is_closed, open_for_allocation, Tx, ◌>>=◌, ◌>>◌, pure, gets, or_throw,
  throw_if, modify, insert_unless, with_transaction,
}
use ceoma_api.DbHelpers.{ensure_reference, refresh_lot_status}

-- `ContractInput`; dates are numbers of days
pub record ContractInput : Type 0 where
  pub contract_number : String
  pub buyer_id : ℕ
  pub grade_id : Option ℕ
  pub quantity_kg : ℤ
  pub price_per_kg : ℤ
  pub price_terms : String
  pub currency : String
  pub shipment_window_start : ℕ
  pub shipment_window_end : ℕ

-- `AllocationInput`
pub record AllocationInput : Type 0 where
  pub lot_id : ℕ
  pub allocated_kg : ℤ

module _ (contract_id : ℕ) (input : ContractInput) (actor : AuthContext) where
  abbrev pub new_contract : Contract
  new_contract = record {
    id = contract_id;
    organization_id = actor.organization_id;
    contract_number = input.contract_number;
    buyer_id = input.buyer_id;
    grade_id = input.grade_id;
    quantity_kg = numeric_3 input.quantity_kg;
    price_per_kg = numeric_4 input.price_per_kg;
    price_terms = input.price_terms;
    currency = input.currency;
    shipment_window_start = input.shipment_window_start;
    shipment_window_end = input.shipment_window_end;
    allocated_kg = pos 0;
    shipped_kg = pos 0;
    status = open_for_allocation;
  }

  -- The primary key, and `uniq_contracts_org_number`
  abbrev pub contract_clash : Store → Bool
  contract_clash s =
      any
        (λ c.
          c.id == contract_id
          || (c.organization_id == actor.organization_id
              && str_eq c.contract_number input.contract_number))
        s.contracts

  abbrev pub check_grade : Tx Store (Unit {0})
  check_grade = elim input.grade_id [
    | none ↦ pure tt
    | some grade_id ↦ ensure_reference "grades" grade_id "Grade" (some actor.organization_id)
  ]

  -- `createContract`; `contract_id` is the UUID that it draws. The name of the buyer, for the
  -- notification, is `none` where the code falls back on the identifier.
  unfoldable pub create_contract : Tx Store (Contract × Option String)
  unfolding find
  create_contract = with_transaction do
    ensure_reference "buyers" input.buyer_id "Buyer" (some actor.organization_id)
    check_grade
    insert_unless contract_clash (λ s. record s { contracts = new_contract ∷ s.contracts })
    buyer ← gets (λ s. find (owned input.buyer_id actor.organization_id) s.buyers)
    pure (new_contract, Option.map (λ b. b.name) buyer)

-- What `allocateLot` hands to the notification of a fully allocated contract.
pub record FullyAllocated : Type 0 where
  pub contract_number : String
  pub allocated_kg : ℤ

-- `UPDATE contracts SET allocated_kg = allocated_kg + $1`
abbrev pub add_allocated : ℕ → ℕ → ℤ → Store → Store
add_allocated contract_id org kg s = record s {
  contracts =
      update (owned contract_id org)
        (λ c. record c { allocated_kg = numeric_3 (c.allocated_kg +ℤ kg) }) s.contracts;
}

-- `UPDATE lots SET weight_available_kg = weight_available_kg - $1`
abbrev pub take_available : ℕ → ℕ → ℤ → Store → Store
take_available lot_id org kg s = record s {
  lots =
      update (owned lot_id org)
        (λ l. record l { weight_available_kg = numeric_3 (l.weight_available_kg -ℤ kg) }) s.lots;
}

module _ (allocation_id contract_id : ℕ) (input : AllocationInput) (actor : AuthContext) where
  abbrev pub new_allocation : Allocation
  new_allocation = record {
    id = allocation_id;
    organization_id = actor.organization_id;
    contract_id = contract_id;
    lot_id = input.lot_id;
    allocated_kg = numeric_3 input.allocated_kg;
    status = AllocationStatus.allocated;
    shipment_id = none;
  }

  -- `allocated.allocatedKg + EPSILON >= allocated.quantityKg`, on the contract as it was updated
  abbrev pub full_notice : Contract → Option FullyAllocated
  full_notice c =
      let after = numeric_3 (c.allocated_kg +ℤ input.allocated_kg) in
      if leb_ℤ c.quantity_kg (after +ℤ epsilon)
      then some (record { contract_number = c.contract_number; allocated_kg = after })
      else none

  -- The statements of `allocateLot` once the contract and the lot are read.
  unfoldable pub allocate : Contract → Lot → Tx Store (Allocation × Option FullyAllocated)
  allocate contract lot = do
    let remaining = contract.quantity_kg -ℤ contract.allocated_kg
    throw_if (ltb_ℤ epsilon (input.allocated_kg -ℤ remaining))
        (api_error 409 (text "Allocation exceeds remaining contract quantity"))
    throw_if (ltb_ℤ epsilon (input.allocated_kg -ℤ lot.weight_available_kg))
        (api_error 409 (text "Allocation exceeds available lot quantity"))
    insert_unless (λ s. any (λ a. a.id == allocation_id) s.allocations)
        (λ s. record s { allocations = new_allocation ∷ s.allocations })
    modify (add_allocated contract_id actor.organization_id input.allocated_kg)
    modify (take_available input.lot_id actor.organization_id input.allocated_kg)
    refresh_lot_status input.lot_id (some actor.organization_id)
    pure (new_allocation, full_notice contract)

  -- `allocateLot`; `allocation_id` is the UUID that it draws.
  unfoldable pub allocate_lot : Tx Store (Allocation × Option FullyAllocated)
  unfolding find
  allocate_lot = with_transaction do
    contract ←
        or_throw (← gets (λ s. find (owned contract_id actor.organization_id) s.contracts))
          (api_error 404 (not_found "Contract" contract_id))
    throw_if (is_closed contract.status) (api_error 400 (text "Contract is closed"))
    lot ←
        or_throw (← gets (λ s. find (owned input.lot_id actor.organization_id) s.lots))
          (api_error 404 (not_found "Lot" input.lot_id))
    allocate contract lot
