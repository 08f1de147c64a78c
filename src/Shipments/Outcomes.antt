-- ===== src/Shipments/Outcomes.antt =====
-- What `createShipment` keeps: a rule that reduces a property of its final state to the state in
-- which the allocations and the contract have been rewritten.
use ceoma_api.Prelude.{
  ℕ, ◌≡◌, ℤ, pos, ◌+ℤ◌, ◌-ℤ◌, ltb_ℤ, false, some, List, [], ◌∷◌, Option-cases, inl, inr, Bool-cases,
  length, ◌==◌,
}
use ceoma_api.Errors.{ok, Result-cases}
use ceoma_api.Sql.{owned, find, select}
use ceoma_api.Quantity.{epsilon}
use ceoma_api.Store.{
  Store, Contract, Shipment, LotStatus, lot_row, contract_row, AuthContext, continue_keeps,
  with_transaction_keeps,
}
use ceoma_api.DbHelpers.{refresh_lot_status, next_contract_status}
use ceoma_api.DbHelpers.Laws.{refresh_lot_status_found, refresh_lot_status_missing, with_status}
use ceoma_api.Shipments.{
  ShipmentCreateInput, shipment_clash, unique_ids, is_listed, insert_shipment, ship_contract,
  ship_allocations, set_shipped, fulfil, create_shipment, check_allocations, refresh_all,
}

-- The contracts and allocations after a shipment, before lots are refreshed.
abbrev pub shipped_state : ℕ → ℕ → ShipmentCreateInput → AuthContext → Contract → ℤ → Store → Store
shipped_state shipment_id today input actor c kg s =
    set_shipped shipment_id today input actor (c.shipped_kg +ℤ kg)
      (next_contract_status (c.shipped_kg +ℤ kg) c.quantity_kg c.status)
      (ship_allocations shipment_id today input actor s)

module _ (P : Store → Type 0)
    (marks : (lot_id org : ℕ) (status : LotStatus) (s : Store)
      → P s
      → P (with_status lot_id org status s))
    (ships : (s : Store) (rows : List Shipment) → P s → P (record s { shipments = rows })) where
  refresh_lot_status_keeps :
      (lot_id org : ℕ) (s : Store) → P s → P (refresh_lot_status lot_id (some org) s).1
  refresh_lot_status_keeps lot_id org s h = elim (Option-cases (find (owned lot_id org) s.lots)) [
    | inl missing ↦ rw (refresh_lot_status_missing lot_id org s missing) h
    | inr (l, found) ↦ rw (refresh_lot_status_found lot_id org s found) (marks lot_id org _ s h)
  ]

  refresh_all_keeps : (org : ℕ) (ids : List ℕ) (s : Store) → P s → P (refresh_all org ids s).1
  unfolding refresh_all
  refresh_all_keeps org [] s h = h
  refresh_all_keeps org (lot_id ∷ ids) s h =
      continue_keeps P (refresh_lot_status lot_id (some org) s) _
        (refresh_lot_status_keeps lot_id org s h)
        (λ _ done. refresh_all_keeps org ids _ (refresh_lot_status_keeps lot_id org s h))

  module _ (shipment_id today : ℕ) (input : ShipmentCreateInput) (actor : AuthContext) where
    fulfil_keeps :
        (c : Contract) (kg : ℤ) (s : Store)
        → P s
        → (ltb_ℤ epsilon (c.shipped_kg +ℤ kg -ℤ c.quantity_kg) ≡ false
            → P (shipped_state shipment_id today input actor c kg s))
        → P (fulfil shipment_id today input actor c kg s).1
    unfolding fulfil
    fulfil_keeps c kg s before after =
        elim (Bool-cases (ltb_ℤ epsilon (c.shipped_kg +ℤ kg -ℤ c.quantity_kg))) [
          | inl over ↦ rw over before
          | inr fits ↦ rw fits (
              continue_keeps P (refresh_all actor.organization_id _ _) _
                (refresh_all_keeps actor.organization_id _ _ (after fits))
                (λ _ done. ships _ _ (refresh_all_keeps actor.organization_id _ _ (after fits))))
        ]

    ship_contract_keeps :
        (s : Store) (c : Contract)
        → P s
        → ((kg : ℤ)
            → check_allocations input.contract_id
                (pos 0)
                (select (is_listed shipment_id today input actor) s.allocations)
              ≡ ok kg
            → ltb_ℤ epsilon (c.shipped_kg +ℤ kg -ℤ c.quantity_kg) ≡ false
            → P (shipped_state shipment_id today input actor c kg s))
        → P
            (ship_contract shipment_id today input actor c
              (insert_shipment shipment_id today input actor s)).1
    unfolding ship_contract
    ship_contract_keeps s c before after =
        let rows = select (is_listed shipment_id today input actor) s.allocations in
        let inserted : P (insert_shipment shipment_id today input actor s) = ships s _ before in
        elim (Bool-cases (length rows == length (unique_ids shipment_id today input actor))) [
          | inr differ ↦ rw differ inserted
          | inl same ↦
              rw same (elim (Result-cases (check_allocations input.contract_id (pos 0) rows)) [
                | inl (e, refused) ↦ rw refused inserted
                | inr (kg, accepted) ↦
                    rw accepted
                      (fulfil_keeps c kg _ inserted (λ fits. ships _ _ (after kg accepted fits)))
              ])
        ]

    -- A property that no lot status and no shipment row touches holds after `createShipment` if it
    -- held before, and holds of the rewritten contract and allocations whenever the listed
    -- allocations pass the checks and the contract is not over-fulfilled.
    pub create_shipment_keeps :
        (s : Store)
        → P s
        → ((c : Contract) (kg : ℤ)
            → find (owned input.contract_id actor.organization_id) s.contracts ≡ some c
            → check_allocations input.contract_id
                (pos 0)
                (select (is_listed shipment_id today input actor) s.allocations)
              ≡ ok kg
            → ltb_ℤ epsilon (c.shipped_kg +ℤ kg -ℤ c.quantity_kg) ≡ false
            → P (shipped_state shipment_id today input actor c kg s))
        → P (create_shipment shipment_id today input actor s).1
    unfolding create_shipment
    create_shipment_keeps s before after = with_transaction_keeps P _ s before (λ _.
        elim (Option-cases (find (owned input.contract_id actor.organization_id) s.contracts)) [
          | inl missing ↦ rw missing before
          | inr (c, found) ↦
              rw found (elim (Bool-cases (shipment_clash shipment_id today input actor s)) [
                | inl old ↦ rw old before
                | inr new ↦
                    rw new (ship_contract_keeps s c before (λ kg e fits. after c kg found e fits))
              ])
        ])
