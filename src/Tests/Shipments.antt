-- ===== src/Tests/Shipments.antt =====
-- Shipments at a concrete database.
use ceoma_api.Prelude.{◌≡◌, refl, ◌≤◌, List, distinct, true, none, some, [], ◌∷◌, ◌+ℤ◌, ◌-ℤ◌}
use ceoma_api.Errors.{is_ok}
use ceoma_api.Quantity.{numeric_3}
use ceoma_api.Sql.{find, owned, select, update, count}
use ceoma_api.Store.{Shipment, ShipmentStatus, with_transaction, shipment_row, lot_row}
use ceoma_api.DbHelpers.{refresh_lot_status, progression_index, next_contract_status}
use ceoma_api.Books.{IsBalanced}
use ceoma_api.Shipments.{
  ShipmentCreateInput, ShipmentStatusInput, create_shipment, ship_contract, fulfil,
  check_allocations, order_by_id, join_lots, refresh_all,
}
use ceoma_api.Shipments.Balance.{create_shipment-IsBalanced}
use ceoma_api.Shipments.Progress.{StatusRequest, run_requests, run_requests_forward}
use ceoma_api.Tests.Data.{trader_a, shipment_a, store_a, store_a-IsSound, store_a-IsBalanced}

abbrev pub shipping : ShipmentCreateInput
shipping = record {
  shipment_number = "S-2";
  contract_id = 20;
  container_number = some "K-1";
  seal_number = none;
  planned_departure = some 120;
  allocation_ids = 30 ∷ 30 ∷ [];
}

abbrev to_vessel : ShipmentStatusInput
to_vessel = record { status = ShipmentStatus.on_vessel; actual_departure = some 125 }

abbrev back : ShipmentStatusInput
back = record { status = ShipmentStatus.planned; actual_departure = none }

abbrev requests : List StatusRequest
requests =
    record { shipment_id = 40; input = to_vessel; actor = trader_a }
    ∷ record { shipment_id = 40; input = back; actor = trader_a }
    ∷ []

create_accepted : is_ok (create_shipment 41 110 shipping trader_a store_a).0 ≡ true
unfolding create_shipment ship_contract fulfil check_allocations order_by_id join_lots refresh_all
    refresh_lot_status find select update count with_transaction next_contract_status distinct ◌+ℤ◌
    ◌-ℤ◌ numeric_3
create_accepted = refl

create_shipment-IsBalanced_example : IsBalanced (create_shipment 41 110 shipping trader_a store_a).1
create_shipment-IsBalanced_example =
    create_shipment-IsBalanced 41 110 shipping trader_a store_a store_a-IsSound store_a-IsBalanced

run_requests_forward_example :
    (r : Shipment) × (find (owned 40 1) (run_requests requests store_a).shipments ≡ some r)
    × (1 ≤ progression_index r.status)
    × (r.traceability_snapshot ≡ none)
unfolding find
run_requests_forward_example = run_requests_forward requests store_a 40 1 {r = shipment_a} refl
