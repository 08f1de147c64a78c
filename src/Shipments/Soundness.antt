-- ===== src/Shipments/Soundness.antt =====
-- Creating a shipment keeps the weights sound: no contract is shipped beyond its quantity.
use ceoma_api.Prelude.{ℕ, ◌≡◌, refl, ℤ, pos, ◌+ℤ◌, ◌-ℤ◌, ◌≤ℤ◌, ltb_ℤ, int_laws, false, some, arith}
use ceoma_api.Errors.{ok}
use ceoma_api.Sql.{owned, find, select}
use ceoma_api.Sql.Laws.{
  find-All, All-select, update-All, update-All_found, Unique-update, Unique-update_where,
}
use ceoma_api.Quantity.{
  epsilon, minus_epsilon, numeric_3-IsGrams, numeric_3_nonneg, numeric_3-le_grams,
}
use ceoma_api.Store.{Store, Contract, contract_row, allocation_row, AuthContext}
use ceoma_api.Books.{IsSound, ContractIsSound, AllocationIsSound}
use ceoma_api.Books.Updates.{with_status-IsSound}
use ceoma_api.Shipments.{ShipmentCreateInput, is_listed, ship, create_shipment, check_allocations}
use ceoma_api.Shipments.Outcomes.{shipped_state, create_shipment_keeps}
use ceoma_api.Shipments.Sums.{check_allocations_nonneg}

within_quantity : (x q : ℤ) → ltb_ℤ epsilon (x -ℤ q) ≡ false → x ≤ℤ q +ℤ epsilon
within_quantity x q h = grind (int_laws, h)

sum_nonneg : (x y : ℤ) → pos 0 ≤ℤ x → pos 0 ≤ℤ y → minus_epsilon ≤ℤ x +ℤ y
sum_nonneg x y h k = omega int_laws

module _ (shipment_id today : ℕ) (input : ShipmentCreateInput) (actor : AuthContext) (s : Store)
    (h : IsSound s) where
  shipped_state-IsSound :
      (c : Contract) (kg : ℤ)
      → find (owned input.contract_id actor.organization_id) s.contracts ≡ some c
      → check_allocations input.contract_id
          (pos 0)
          (select (is_listed shipment_id today input actor) s.allocations)
        ≡ ok kg
      → ltb_ℤ epsilon (c.shipped_kg +ℤ kg -ℤ c.quantity_kg) ≡ false
      → IsSound (shipped_state shipment_id today input actor c kg s)
  shipped_state-IsSound c kg found accepted fits =
      let listed = is_listed shipment_id today input actor in
      let old : ContractIsSound c = (find-All _ ContractIsSound s.contracts found h.contracts).1 in
      let total : ℤ = c.shipped_kg +ℤ kg in
      let gained : pos 0 ≤ℤ kg =
        check_allocations_nonneg input.contract_id (pos 0) kg (select listed s.allocations)
          (omega arith) (All-select listed AllocationIsSound s.allocations h.allocations)
          accepted in
      record {
        lot_keys = h.lot_keys;
        contract_keys =
            Unique-update input.contract_id actor.organization_id _ s.contracts (λ r. refl)
              h.contract_keys;
        allocation_keys = Unique-update_where listed _ s.allocations (λ r. refl) h.allocation_keys;
        lots = h.lots;
        contracts =
            update-All_found ContractIsSound input.contract_id actor.organization_id _ s.contracts
              h.contract_keys found h.contracts
              (
                old.0,
                old.1,
                numeric_3-IsGrams total,
                old.3,
                old.4,
                numeric_3_nonneg total (sum_nonneg c.shipped_kg kg old.5 gained),
                numeric_3-le_grams total c.quantity_kg old.0
                    (within_quantity total c.quantity_kg fits),
              );
        allocations =
            update-All listed AllocationIsSound (ship shipment_id today input actor) s.allocations
              (λ a p. p) h.allocations;
      }

  -- Creating a shipment from sound books, whatever the outcome, leaves no contract shipped
  -- beyond its quantity, and keeps every weight sound.
  pub create_shipment-IsSound : IsSound (create_shipment shipment_id today input actor s).1
  create_shipment-IsSound =
      create_shipment_keeps IsSound
        (λ lot_id org status t k. with_status-IsSound lot_id org status k)
        (λ t rows k. record {
          lot_keys = k.lot_keys;
          contract_keys = k.contract_keys;
          allocation_keys = k.allocation_keys;
          lots = k.lots;
          contracts = k.contracts;
          allocations = k.allocations;
        })
        shipment_id today input actor s h shipped_state-IsSound
