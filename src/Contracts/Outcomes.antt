-- ===== src/Contracts/Outcomes.antt =====
-- Every outcome of `allocateLot` and `createContract`, as a function of the rows that they read.
use ceoma_api.Prelude.{
  ℕ, ℤ, ◌≡◌, refl, ap, ◌∙◌, arith, ◌+ℤ◌, ◌-ℤ◌, ltb_ℤ, leb_ℤ, Bool, false, Option, none, some, ◌∷◌,
  Option-cases, inl, inr, Bool-cases, any, ◌==◌, if◌then◌else◌,
}
use ceoma_api.Errors.{Result, ok, err, api_error, pg_error, text, not_found}
use ceoma_api.Sql.{owned, find, update, count}
use ceoma_api.Sql.Laws.{find-update}
use ceoma_api.Quantity.{epsilon, numeric_3}
use ceoma_api.Store.{
  Store, Lot, Contract, Allocation, AllocationStatus, LotStatus, lot_row, contract_row, AuthContext,
  is_closed, with_transaction, settle,
}
use ceoma_api.DbHelpers.{lot_status}
use ceoma_api.DbHelpers.Laws.{refresh_lot_status_found, open_allocations}
use ceoma_api.Contracts.{AllocationInput, FullyAllocated, allocate, allocate_lot}

module _ (allocation_id contract_id : ℕ) (input : AllocationInput) (actor : AuthContext)
    (s : Store) where
  -- The row that an allocation leaves
  abbrev pub recorded : Allocation
  recorded = record {
    id = allocation_id;
    organization_id = actor.organization_id;
    contract_id = contract_id;
    lot_id = input.lot_id;
    allocated_kg = numeric_3 input.allocated_kg;
    status = AllocationStatus.allocated;
    shipment_id = none;
  }

  -- The tables with the row, the weight more on the contract and the weight less on the lot
  abbrev pub moved : Store
  moved = record s {
    allocations = recorded ∷ s.allocations;
    contracts =
        update (owned contract_id actor.organization_id)
          (λ c. record c { allocated_kg = numeric_3 (c.allocated_kg +ℤ input.allocated_kg) })
          s.contracts;
    lots =
        update (owned input.lot_id actor.organization_id)
          (λ l. record l {
            weight_available_kg = numeric_3 (l.weight_available_kg -ℤ input.allocated_kg);
          })
          s.lots;
  }

  -- The contract is told of as full once what is left of it is within the tolerance.
  abbrev pub told : Contract → Option FullyAllocated
  told c =
      let total = numeric_3 (c.allocated_kg +ℤ input.allocated_kg) in
      if leb_ℤ c.quantity_kg (total +ℤ epsilon)
      then some (record { contract_number = c.contract_number; allocated_kg = total })
      else none

  abbrev pub taken_from : Lot → Lot
  taken_from l = record l {
    weight_available_kg = numeric_3 (l.weight_available_kg -ℤ input.allocated_kg);
  }

  -- The lot has an open allocation now, so its status is `allocated` whatever is left of it.
  abbrev pub allocated_state : Lot → Store
  allocated_state l = record moved {
    lots =
        update (owned input.lot_id actor.organization_id)
          (λ l. record l { status = LotStatus.allocated }) moved.lots;
  }

  abbrev pub exceeds_contract : Contract → Bool
  exceeds_contract c = ltb_ℤ epsilon (input.allocated_kg -ℤ (c.quantity_kg -ℤ c.allocated_kg))

  abbrev pub exceeds_lot : Lot → Bool
  exceeds_lot l = ltb_ℤ epsilon (input.allocated_kg -ℤ l.weight_available_kg)

  abbrev pub id_taken : Bool
  id_taken = any (λ a. a.id == allocation_id) s.allocations

  abbrev pub outcome_on :
      Contract → Option Lot → Result (Allocation × Option FullyAllocated) × Store
  outcome_on c none = (err (api_error 404 (not_found "Lot" input.lot_id)), s)
  outcome_on c (some l) =
      if exceeds_contract c
      then (err (api_error 409 (text "Allocation exceeds remaining contract quantity")), s)
      else if exceeds_lot l
      then (err (api_error 409 (text "Allocation exceeds available lot quantity")), s)
      else if id_taken
      then (err (pg_error "23505"), s)
      else (ok (recorded, told c), allocated_state l)

  abbrev pub outcome :
      Option Contract → Option Lot → Result (Allocation × Option FullyAllocated) × Store
  outcome none lot = (err (api_error 404 (not_found "Contract" contract_id)), s)
  outcome (some c) lot =
      if is_closed c.status
      then (err (api_error 400 (text "Contract is closed")), s)
      else outcome_on c lot

  abbrev pub read_contract : Option Contract
  read_contract = find (owned contract_id actor.organization_id) s.contracts

  abbrev pub read_lot : Option Lot
  read_lot = find (owned input.lot_id actor.organization_id) s.lots

  status_allocated :
      (available : ℤ)
      → lot_status available (open_allocations input.lot_id moved) ≡ LotStatus.allocated
  unfolding lot_status count
  status_allocated available = ground arith

  -- The statements on the rows that were read; where the identifier is taken they fail after nothing
  -- has been written.
  allocate_lem :
      (c : Contract) (l : Lot)
      → read_lot ≡ some l
      → allocate allocation_id contract_id input actor c l s ≡ outcome_on c (some l)
  unfolding allocate
  allocate_lem c l found = elim (Bool-cases (exceeds_contract c)) [
    | inl over ↦ rw over refl
    | inr fits ↦ rw fits (elim (Bool-cases (exceeds_lot l)) [
      | inl over ↦ rw over refl
      | inr fits' ↦ rw fits' (elim (Bool-cases id_taken) [
        | inl old ↦ rw old refl
        | inr new ↦
            rw
              (
                new,
                refresh_lot_status_found input.lot_id actor.organization_id moved
                    (find-update _ taken_from s.lots (λ r. refl) found),
                status_allocated (taken_from l).weight_available_kg,
              )
              refl
      ])
    ])
  ]

  settle-outcome_on :
      (c : Contract) (l : Lot) → settle s (outcome_on c (some l)) ≡ outcome_on c (some l)
  settle-outcome_on c l = ground arith

  -- An allocation is refused, with nothing written, if the organization has no such contract
  -- (404), if the contract is closed (400), if there is no such lot (404), if the weight
  -- exceeds what remains of the contract or what is available of the lot by more than the
  -- tolerance (409), or if its identifier is taken (a unique violation). Otherwise a row with
  -- its weight in whole grams is recorded as allocated and with no shipment, its weight is
  -- added to the contract and taken from the lot, each rounded to grams, the lot's status
  -- becomes allocated, nothing else changes, and the contract is reported as full exactly if
  -- what is left of it is within the tolerance.
  pub allocate_lot_lem :
      allocate_lot allocation_id contract_id input actor s ≡ outcome read_contract read_lot
  unfolding allocate_lot with_transaction
  allocate_lot_lem = elim (Option-cases read_contract) [
    | inl missing ↦ rw missing refl
    | inr (c, found) ↦ rw found (elim (Bool-cases (is_closed c.status)) [
      | inl shut ↦ rw shut refl
      | inr usable ↦ rw usable (elim (Option-cases read_lot) [
        | inl no_lot ↦ rw no_lot refl
        | inr (l, lot_found) ↦
            rw lot_found (ap (settle s) (allocate_lem c l lot_found) ∙ settle-outcome_on c l)
      ])
    ])
  ]

  -- What holds before an allocation, and on the state of each one that passes its guards, holds after.
  pub allocate_lot_keeps :
      (P : Store → Type 0)
      → P s
      → ((c : Contract) (l : Lot)
          → read_contract ≡ some c
          → read_lot ≡ some l
          → exceeds_contract c ≡ false
          → exceeds_lot l ≡ false
          → id_taken ≡ false
          → P (allocated_state l))
      → P (allocate_lot allocation_id contract_id input actor s).1
  allocate_lot_keeps P before after = rw allocate_lot_lem (elim (Option-cases read_contract) [
    | inl missing ↦ rw missing before
    | inr (c, found) ↦ rw found (elim (Bool-cases (is_closed c.status)) [
      | inl shut ↦ rw shut before
      | inr usable ↦ rw usable (elim (Option-cases read_lot) [
        | inl no_lot ↦ rw no_lot before
        | inr (l, lot_found) ↦ rw lot_found (ground (arith, before, after c l found lot_found))
      ])
    ])
  ])
