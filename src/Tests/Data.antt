-- ===== src/Tests/Data.antt =====
-- The rows that the tests share, and that they are sound and balanced.
use ceoma_api.Prelude.{ℕ, refl, ℤ, pos, ◌*◌, false, none, some, [], ◌∷◌, arith}
use ceoma_api.Store.{
  Store, Supplier, SupplierType, Reference, Lot, LotSource, LotStatus, Contract, ContractStatus,
  Allocation, AllocationStatus, Shipment, ShipmentStatus, AuthContext, AuthType, UserRole, lot_row,
  contract_row, allocation_row,
}
use ceoma_api.Sql.{sum_where}
use ceoma_api.Prelude.{◌+ℤ◌}
use ceoma_api.Books.{IsSound, IsBalanced}

abbrev pub kilos : ℕ → ℤ
kilos n = pos (n * 1000000)

abbrev pub trader_a : AuthContext
trader_a = record {
  auth_type = AuthType.jwt;
  user_id = 7;
  role = UserRole.trader;
  organization_id = 1;
  session_id = some 90;
  api_key_id = none;
  impersonated = some false;
}

abbrev pub lot_a : Lot
lot_a = record {
  id = 10;
  organization_id = 1;
  lot_code = "L-1";
  source = LotSource.direct;
  source_reference = "D-1";
  supplier_id = 2;
  grade_id = 4;
  warehouse_id = 5;
  bag_type_id = 6;
  crop_year = "2025/26";
  bags_total = 17;
  weight_total_kg = kilos 1000;
  weight_available_kg = kilos 400;
  purchase_price_per_kg = kilos 5;
  auction_fees_total = pos 0;
  additional_cost_total = pos 0;
  status = LotStatus.allocated;
}

abbrev pub contract_a : Contract
contract_a = record {
  id = 20;
  organization_id = 1;
  contract_number = "C-1";
  buyer_id = 3;
  grade_id = none;
  quantity_kg = kilos 900;
  price_per_kg = kilos 7;
  price_terms = "FOB";
  currency = "USD";
  shipment_window_start = 100;
  shipment_window_end = 130;
  allocated_kg = kilos 600;
  shipped_kg = pos 0;
  status = ContractStatus.open_for_allocation;
}

abbrev pub allocation_a : Allocation
allocation_a = record {
  id = 30;
  organization_id = 1;
  contract_id = 20;
  lot_id = 10;
  allocated_kg = kilos 600;
  status = AllocationStatus.allocated;
  shipment_id = none;
}

abbrev pub shipment_a : Shipment
shipment_a = record {
  id = 40;
  organization_id = 1;
  shipment_number = "S-1";
  contract_id = 20;
  status = ShipmentStatus.stuffed;
  container_number = none;
  seal_number = none;
  planned_departure = none;
  actual_departure = none;
  traceability_snapshot = none;
}

abbrev pub agent_a : Supplier
agent_a = record {
  id = 1;
  organization_id = 1;
  name = "Agent";
  supplier_type = SupplierType.auction_agent;
  country = none;
}

abbrev pub farmer_a : Supplier
farmer_a = record {
  id = 2;
  organization_id = 1;
  name = "Farm";
  supplier_type = SupplierType.farmer;
  country = none;
}

abbrev named : ℕ → Reference
named n = record { id = n; organization_id = 1; name = "N"; detail = none; weight_kg = pos 0 }

abbrev pub store_a : Store
store_a = record {
  suppliers = agent_a ∷ farmer_a ∷ [];
  buyers = named 3 ∷ [];
  grades = named 4 ∷ [];
  warehouses = named 5 ∷ [];
  bag_types = named 6 ∷ [];
  lots = lot_a ∷ [];
  contracts = contract_a ∷ [];
  allocations = allocation_a ∷ [];
  shipments = shipment_a ∷ [];
  stock_adjustments = [];
  auction_procurements = [];
  direct_agreements =
      record {
        id = 50;
        organization_id = 1;
        supplier_id = 2;
        agreement_reference = "A-1";
        agreed_price_per_kg = kilos 5;
        currency = "USD";
        crop_year = "2025/26";
      }
      ∷ [];
  direct_deliveries = [];
  cost_entries = [];
}

pub store_a-IsSound : IsSound store_a
store_a-IsSound = record {
  lot_keys = ground arith;
  contract_keys = ground arith;
  allocation_keys = ground arith;
  lots = (((refl, refl), (refl, refl), omega arith, omega arith), tt);
  contracts = (
    ((refl, refl), (refl, refl), (refl, refl), omega arith, omega arith, omega arith, omega arith),
    tt,
  );
  allocations = (((refl, refl), omega arith), tt);
}

pub store_a-IsBalanced : IsBalanced store_a
unfolding sum_where ◌+ℤ◌
store_a-IsBalanced = record { lots = (refl, tt); contracts = ((refl, refl), tt) }
