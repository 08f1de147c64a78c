-- ===== src/Trading/Calls.antt =====
-- A call of a service with the arguments that the controller hands it, and what it does to the database.
use ceoma_api.Prelude.{ℕ, pos, ◌<ℤ◌, List, [], ◌∷◌}
use ceoma_api.Quantity.{IsGrams}
use ceoma_api.Store.{Store, AuthContext}
use ceoma_api.Inventory.{StockAdjustmentInput, adjust_stock}
use ceoma_api.Contracts.{ContractInput, AllocationInput, create_contract, allocate_lot}
use ceoma_api.Shipments.{ShipmentCreateInput, ShipmentStatusInput, create_shipment, update_status}
use ceoma_api.Procurement.{
  AuctionLotInput, DirectAgreementInput, DirectDeliveryInput, create_auction_lot,
  create_direct_agreement, create_direct_delivery,
}
use ceoma_api.Finance.{CostEntryInput, create_cost_entry}

-- The numbers in front of an input are the UUIDs that the method draws, its path parameters, and today.
pub data Call : Type 0 where
  adjust : ℕ → StockAdjustmentInput → AuthContext → Call
  contract : ℕ → ContractInput → AuthContext → Call
  sell_from_lot : ℕ → ℕ → AllocationInput → AuthContext → Call
  ship : ℕ → ℕ → ShipmentCreateInput → AuthContext → Call
  advance_status : ℕ → ShipmentStatusInput → AuthContext → Call
  buy_at_auction : ℕ → ℕ → AuctionLotInput → AuthContext → Call
  agree : ℕ → DirectAgreementInput → AuthContext → Call
  deliver : ℕ → ℕ → DirectDeliveryInput → AuthContext → Call
  enter_cost : ℕ → CostEntryInput → AuthContext → Call

-- The database after a call, whatever its outcome
unfoldable pub perform : Call → Store → Store
perform (Call.adjust id input actor) s = (adjust_stock id input actor s).1
perform (Call.contract id input actor) s = (create_contract id input actor s).1
perform (Call.sell_from_lot id contract_id input actor) s =
    (allocate_lot id contract_id input actor s).1
perform (Call.ship id today input actor) s = (create_shipment id today input actor s).1
perform (Call.advance_status id input actor) s = (update_status id input actor s).1
perform (Call.buy_at_auction lot_id id input actor) s =
    (create_auction_lot lot_id id input actor s).1
perform (Call.agree id input actor) s = (create_direct_agreement id input actor s).1
perform (Call.deliver lot_id id input actor) s = (create_direct_delivery lot_id id input actor s).1
perform (Call.enter_cost id input actor) s = (create_cost_entry id input actor s).1

-- One transaction after another
unfoldable pub perform_all : List Call → Store → Store
unfolding perform
perform_all [] s = s
perform_all (c ∷ cs) s = perform_all cs (perform c s)

-- What the schemas of the validation files demand of the weights: `z.number().positive()`.
abbrev pub IsValidated : Call → Type 0
IsValidated (Call.contract id input actor) = pos 0 <ℤ input.quantity_kg
IsValidated (Call.sell_from_lot id contract_id input actor) = pos 0 <ℤ input.allocated_kg
IsValidated (Call.buy_at_auction lot_id id input actor) = pos 0 <ℤ input.weight_total_kg
IsValidated (Call.deliver lot_id id input actor) = pos 0 <ℤ input.weight_total_kg
IsValidated _ = Unit

-- Weights that are allocated, or by which stock is adjusted, are whole grams.
abbrev pub IsInGrams : Call → Type 0
IsInGrams (Call.adjust id input actor) = IsGrams input.adjustment_kg
IsInGrams (Call.sell_from_lot id contract_id input actor) = IsGrams input.allocated_kg
IsInGrams _ = Unit
