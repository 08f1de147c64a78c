-- ===== src/Finance.antt =====
-- src/modules/finance/finance.service.ts: entering a cost (`createCostEntry`).
pub mod Outcomes
use ceoma_api.Prelude.{ℕ, ℤ, Bool, Option, none, some, ◌∷◌, String, ◌==◌, any, if◌then◌else◌}
use ceoma_api.Errors.{ok, err}
use ceoma_api.Quantity.{numeric_2}
use ceoma_api.Store.{
  Store, CostEntry, AuthContext, Tx, ◌>>=◌, ◌>>◌, pure, insert_unless, with_transaction,
}
use ceoma_api.DbHelpers.{ensure_reference}

-- `CostEntryInput`
pub record CostEntryInput : Type 0 where
  pub lot_id : Option ℕ
  pub shipment_id : Option ℕ
  pub category : String
  pub amount : ℤ
  pub currency : String
  pub notes : Option String

module _ (cost_entry_id : ℕ) (input : CostEntryInput) (actor : AuthContext) where
  abbrev pub new_cost_entry : CostEntry
  new_cost_entry = record {
    id = cost_entry_id;
    organization_id = actor.organization_id;
    lot_id = input.lot_id;
    shipment_id = input.shipment_id;
    category = input.category;
    amount = numeric_2 input.amount;
    currency = input.currency;
    notes = input.notes;
  }

  -- A reference that need not be given
  abbrev pub check_optional : String → String → Option ℕ → Tx Store (Unit {0})
  check_optional table label none = pure tt
  check_optional table label (some id) =
      ensure_reference table id label (some actor.organization_id)

  -- `createCostEntry`; `cost_entry_id` is the UUID that it draws.
  unfoldable pub create_cost_entry : Tx Store CostEntry
  create_cost_entry = with_transaction do
    check_optional "lots" "Lot" input.lot_id
    check_optional "shipments" "Shipment" input.shipment_id
    insert_unless (λ s. any (λ r. r.id == cost_entry_id) s.cost_entries)
        (λ s. record s { cost_entries = new_cost_entry ∷ s.cost_entries })
    pure new_cost_entry
