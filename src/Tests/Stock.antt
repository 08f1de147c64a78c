-- ===== src/Tests/Stock.antt =====
-- Stock adjustments and procurement at a concrete database.
use ceoma_api.Prelude.{none, negsuc}
use ceoma_api.Store.{lot_row, supplier_row, agreement_row, reference_row}
use ceoma_api.Inventory.{StockAdjustmentInput}
use ceoma_api.Procurement.{AuctionLotInput, DirectDeliveryInput}
use ceoma_api.Tests.Data.{kilos}

-- 20 kg are lost.
abbrev spilled : StockAdjustmentInput
spilled = record {
  lot_id = 10;
  adjustment_kg = negsuc 19999999;
  reason = "spill";
  approved_by = "N";
}

abbrev pub auctioned : AuctionLotInput
auctioned = record {
  lot_number = "L-2";
  marketing_agent_id = 1;
  grade_id = 4;
  warehouse_id = 5;
  bag_type_id = 6;
  crop_year = "2025/26";
  bags = 5;
  weight_total_kg = kilos 300;
  purchase_price_per_kg = kilos 6;
  auction_fees_total = kilos 12;
  catalog_document_path = none;
}

abbrev delivery_b : DirectDeliveryInput
delivery_b = record {
  agreement_id = 50;
  internal_lot_id = "L-3";
  delivery_reference = "D-3";
  grade_id = 4;
  warehouse_id = 5;
  bag_type_id = 6;
  bags = 8;
  weight_total_kg = kilos 480;
  moisture_percent = kilos 11;
  screen_size = kilos 17;
  defects_percent = kilos 2;
  processing_cost_total = kilos 30;
  transport_cost_total = kilos 25;
}
