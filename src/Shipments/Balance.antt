-- ===== src/Shipments/Balance.antt =====
-- Creating a shipment keeps the totals of lots and contracts equal to their allocations.
use ceoma_api.Prelude.{
  ℕ, ◌≡◌, refl, ap, ◌≢◌, ◌∙◌, sym, ℤ, pos, pos_part, neg_part, ◌+ℤ◌, int_laws, Bool, some, List,
  All-map, arith, ◌==◌,
}
use ceoma_api.Errors.{ok}
use ceoma_api.Sql.{owned, find, select, update}
use ceoma_api.Sql.Laws.{find-All, All-select, select-All, update-All_change, sum_where-update_same}
use ceoma_api.Quantity.{IsGrams, numeric_3, numeric_3_exact, +ℤ-IsGrams}
use ceoma_api.Store.{Store, Lot, Contract, Allocation, contract_row, AuthContext}
use ceoma_api.Books.{
  IsSound, ContractIsSound, AllocationIsSound, IsBalanced, LotIsBalanced, ContractIsBalanced,
  allocated_where,
}
use ceoma_api.Books.Updates.{with_status-IsBalanced}
use ceoma_api.Shipments.{ShipmentCreateInput, is_listed, ship, create_shipment, check_allocations}
use ceoma_api.Shipments.Outcomes.{shipped_state, create_shipment_keeps}
use ceoma_api.Shipments.Sums.{
  IsOpenFor, check_allocations_open, check_allocations-IsGrams, shipped_for, shipped_sum,
  shipped_sum_other,
}

grown :
    (shipped kg after before : ℤ)
    → shipped ≡ before
    → pos 0 +ℤ after ≡ kg +ℤ before
    → shipped +ℤ kg ≡ after
grown shipped kg after before e f =
    omega (int_laws, ap pos_part e, ap neg_part e, ap pos_part f, ap neg_part f)

module _ (shipment_id today : ℕ) (input : ShipmentCreateInput) (actor : AuthContext) (s : Store)
    (h : IsSound s) (b : IsBalanced s) where
  abbrev listed : Allocation → Bool
  listed = is_listed shipment_id today input actor

  abbrev shipping : Allocation → Allocation
  shipping = ship shipment_id today input actor

  abbrev shipped_rows : List Allocation
  shipped_rows = update listed shipping s.allocations

  lot_kept : (l : Lot) → LotIsBalanced s.allocations l → LotIsBalanced shipped_rows l
  lot_kept l even =
      rw
        (sum_where-update_same listed (λ a. a.lot_id == l.id) (λ a. a.allocated_kg) shipping
          s.allocations (λ a. refl) (λ a. refl))
        even

  module _ (c : Contract) (kg : ℤ)
      (found : find (owned input.contract_id actor.organization_id) s.contracts ≡ some c)
      (accepted : check_allocations input.contract_id (pos 0) (select listed s.allocations)
        ≡ ok kg) where
    allocated_same :
        (x : Contract)
        → allocated_where (λ a. a.contract_id == x.id) shipped_rows
          ≡ allocated_where (λ a. a.contract_id == x.id) s.allocations
    allocated_same x =
        sum_where-update_same listed (λ a. a.contract_id == x.id) (λ a. a.allocated_kg) shipping
          s.allocations (λ a. refl) (λ a. refl)

    contract_kept :
        (x : Contract)
        → ContractIsBalanced s.allocations x
        → x.id ≢ input.contract_id
        → ContractIsBalanced shipped_rows x
    contract_kept x even other = (
      even.0 ∙ sym (allocated_same x),
      even.1
          ∙ sym (
              shipped_sum_other listed shipping (λ a. refl) (λ a. refl) (λ a. refl)
                input.contract_id x.id s.allocations other
                (select-All listed (IsOpenFor input.contract_id) s.allocations
                  (check_allocations_open input.contract_id (pos 0) kg _ accepted))),
    )

    contract_shipped :
        ContractIsBalanced shipped_rows (record c { shipped_kg = numeric_3 (c.shipped_kg +ℤ kg) })
    contract_shipped =
        let old : ContractIsSound c =
          (find-All _ ContractIsSound s.contracts found h.contracts).1 in
        let (fits, even) =
          find-All _ (ContractIsBalanced s.allocations) s.contracts found b.contracts in
        let key : c.id ≡ input.contract_id = ground arith in
        let grams : IsGrams kg =
          check_allocations-IsGrams input.contract_id (pos 0) kg (select listed s.allocations)
            (refl, refl) (All-select listed AllocationIsSound s.allocations h.allocations)
            accepted in
        (
          even.0 ∙ sym (allocated_same c),
          numeric_3_exact (c.shipped_kg +ℤ kg) (+ℤ-IsGrams c.shipped_kg kg old.2 grams)
              ∙ grown c.shipped_kg kg (allocated_where (shipped_for c.id) shipped_rows)
                  (allocated_where (shipped_for c.id) s.allocations) even.1
                  (shipped_sum listed shipping (λ a. refl) (λ a. refl) (λ a. refl) c.id (pos 0) kg
                    s.allocations (rw key accepted)),
        )

    shipped_state-IsBalanced : IsBalanced (shipped_state shipment_id today input actor c kg s)
    shipped_state-IsBalanced = record {
      lots =
          All-map (LotIsBalanced s.allocations) (LotIsBalanced shipped_rows) s.lots lot_kept b.lots;
      contracts =
          update-All_change (ContractIsBalanced s.allocations) (ContractIsBalanced shipped_rows)
            input.contract_id actor.organization_id _ s.contracts h.contract_keys found
            contract_kept contract_shipped b.contracts;
    }

  -- Creating a shipment from sound and balanced books, whatever the outcome, keeps every
  -- contract's shipped weight equal to the sum over its shipped allocations, and every other
  -- total equal to its sum.
  pub create_shipment-IsBalanced : IsBalanced (create_shipment shipment_id today input actor s).1
  create_shipment-IsBalanced =
      create_shipment_keeps IsBalanced
        (λ lot_id org status t k. with_status-IsBalanced lot_id org status k)
        (λ t rows k. record { lots = k.lots; contracts = k.contracts }) shipment_id today input
        actor s b (λ c kg found accepted fits. shipped_state-IsBalanced c kg found accepted)
