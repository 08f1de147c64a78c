-- ===== src/Tests/Contracts.antt =====
-- Contracts and allocations at a concrete database.
use ceoma_api.Prelude.{◌≡◌, refl, pos, true, some, ◌↔◌, ◌+ℤ◌, ◌-ℤ◌, arith, is_some}
use ceoma_api.Errors.{is_ok}
use ceoma_api.Quantity.{numeric_3}
use ceoma_api.Sql.{find, update, count}
use ceoma_api.Store.{with_transaction, lot_row, contract_row, reference_row}
use ceoma_api.DbHelpers.{refresh_lot_status}
use ceoma_api.Books.{IsBalanced}
use ceoma_api.Contracts.{ContractInput, AllocationInput, allocate_lot, allocate, full_notice}
use ceoma_api.Contracts.Outcomes.{allocate_lot_lem, outcome}
use ceoma_api.Contracts.Balance.{allocate_lot-IsBalanced}
use ceoma_api.Contracts.Notices.{full_notice_iff}
use ceoma_api.Contracts.HalfGrams.{allocate_lot_half_gram}
use ceoma_api.Tests.Data.{
  kilos, trader_a, lot_a, contract_a, store_a, store_a-IsSound, store_a-IsBalanced,
}

-- What remains of the contract
abbrev rest_of_it : AllocationInput
rest_of_it = record { lot_id = 10; allocated_kg = kilos 300 }

-- 100 kg and half a gram
abbrev half_gram_more : AllocationInput
half_gram_more = record { lot_id = 10; allocated_kg = pos 100000500 }

abbrev pub order_b : ContractInput
order_b = record {
  contract_number = "C-2";
  buyer_id = 3;
  grade_id = some 4;
  quantity_kg = kilos 50;
  price_per_kg = kilos 7;
  price_terms = "CIF";
  currency = "EUR";
  shipment_window_start = 100;
  shipment_window_end = 130;
}

allocate_accepted : is_ok (allocate_lot 31 20 rest_of_it trader_a store_a).0 ≡ true
unfolding allocate_lot allocate find update count refresh_lot_status with_transaction ◌+ℤ◌ ◌-ℤ◌
    numeric_3
allocate_accepted = refl

half_gram_accepted : is_ok (allocate_lot 31 20 half_gram_more trader_a store_a).0 ≡ true
unfolding allocate_lot allocate find update count refresh_lot_status with_transaction ◌+ℤ◌ ◌-ℤ◌
    numeric_3
half_gram_accepted = refl

allocate_lot_lem_example :
    allocate_lot 31 20 rest_of_it trader_a store_a
    ≡ outcome 31 20 rest_of_it trader_a store_a (some contract_a) (some lot_a)
unfolding find
allocate_lot_lem_example = allocate_lot_lem 31 20 rest_of_it trader_a store_a

allocate_lot-IsBalanced_example : IsBalanced (allocate_lot 31 20 rest_of_it trader_a store_a).1
allocate_lot-IsBalanced_example =
    allocate_lot-IsBalanced 31 20 rest_of_it trader_a store_a-IsSound store_a-IsBalanced
      (refl, refl)

allocate_lot_half_gram_example : ¬ IsBalanced (allocate_lot 31 20 half_gram_more trader_a store_a).1
unfolding find
allocate_lot_half_gram_example =
    allocate_lot_half_gram 31 20 half_gram_more trader_a store_a 100000500 lot_a refl refl
      store_a-IsSound store_a-IsBalanced refl (omega arith) half_gram_accepted

full_notice_iff_example :
    (is_some (full_notice 31 20 rest_of_it trader_a contract_a) ≡ true)
    ↔ (numeric_3 (kilos 600 +ℤ kilos 300) ≡ kilos 900)
unfolding find ◌-ℤ◌
full_notice_iff_example =
    full_notice_iff 31 20 rest_of_it trader_a store_a contract_a store_a-IsSound refl refl
