-- ===== src/Tests/Trading.antt =====
-- A lot bought, sold, allocated and shipped, from a database with no lot.
use ceoma_api.Prelude.{◌≡◌, refl, true, map, distinct, ◌+ℤ◌, ◌-ℤ◌, List, [], ◌∷◌, All, arith}
use ceoma_api.Quantity.{numeric_2, numeric_3}
use ceoma_api.Sql.{find, select, update, count}
use ceoma_api.Store.{Store, is_shipped, with_transaction}
use ceoma_api.DbHelpers.{refresh_lot_status, next_contract_status, table_has, ensure_reference}
use ceoma_api.Procurement.{create_auction_lot, insert_auction}
use ceoma_api.Contracts.{AllocationInput, create_contract, allocate_lot, allocate}
use ceoma_api.Shipments.{
  ShipmentCreateInput, create_shipment, ship_contract, fulfil, check_allocations, order_by_id,
  join_lots, refresh_all,
}
use ceoma_api.Books.{IsSound}
use ceoma_api.Trading.Calls.{Call, perform_all, IsValidated, IsInGrams}
use ceoma_api.Trading.Reach.{IsCovered, perform_all-IsSound, perform_all-IsCovered}
use ceoma_api.Tests.Data.{kilos, trader_a, store_a, store_a-IsSound}
use ceoma_api.Tests.Stock.{auctioned}
use ceoma_api.Tests.Contracts.{order_b}
use ceoma_api.Tests.Shipments.{shipping}

abbrev store_b : Store
store_b = record store_a { lots = []; contracts = []; allocations = []; shipments = [] }

abbrev some_of_it : AllocationInput
some_of_it = record { lot_id = 10; allocated_kg = kilos 40 }

abbrev shipping_b : ShipmentCreateInput
shipping_b = record shipping { contract_id = 20 }

abbrev calls : List Call
calls =
    Call.buy_at_auction 10 60 auctioned trader_a
    ∷ Call.contract 20 order_b trader_a
    ∷ Call.sell_from_lot 30 20 some_of_it trader_a
    ∷ Call.ship 41 110 shipping_b trader_a
    ∷ []

calls-IsValidated : All IsValidated calls
calls-IsValidated = (omega arith, (omega arith, (omega arith, (tt, tt))))

calls-IsInGrams : All IsInGrams calls
calls-IsInGrams = (tt, (tt, ((refl, refl), (tt, tt))))

perform_all-IsCovered_example : IsCovered (perform_all calls store_b)
perform_all-IsCovered_example =
    perform_all-IsCovered calls store_b (refl, refl, refl) calls-IsValidated calls-IsInGrams

perform_all-IsSound_example : IsSound (perform_all calls store_a)
perform_all-IsSound_example = perform_all-IsSound calls store_a calls-IsValidated store_a-IsSound

-- All four calls are accepted.
calls_accepted : map (λ a. is_shipped a) (perform_all calls store_b).allocations ≡ true ∷ []
unfolding perform_all create_auction_lot create_contract allocate_lot allocate create_shipment
    ship_contract fulfil check_allocations order_by_id join_lots refresh_all refresh_lot_status find
    select update count with_transaction next_contract_status distinct table_has ◌+ℤ◌ ◌-ℤ◌ numeric_3
    numeric_2 ensure_reference insert_auction
calls_accepted = refl
