-- ===== src/Inventory.antt =====
-- src/modules/inventory/inventory.service.ts: the stock adjustment (`adjustStock`).
pub mod Laws
use ceoma_api.Prelude.{
  ℕ, ℤ, pos, ◌+ℤ◌, ltb_ℤ, max_ℤ, Bool, ◌||◌, ◌&&◌, Option, some, List, ◌∷◌, String, ◌==◌,
  if◌then◌else◌, any,
}
use ceoma_api.Errors.{api_error, not_found, text, ok, err}
use ceoma_api.Sql.{owned, find, update}
use ceoma_api.Quantity.{minus_epsilon, numeric_3}
use ceoma_api.Store.{
  Store, Lot, lot_row, StockAdjustment, AuthContext, Tx, ◌>>=◌, ◌>>◌, pure, gets, or_throw,
  throw_if, modify, insert_unless, with_transaction,
}
use ceoma_api.DbHelpers.{refresh_lot_status}

-- `StockAdjustmentInput`
pub record StockAdjustmentInput : Type 0 where
  pub lot_id : ℕ
  pub adjustment_kg : ℤ
  pub reason : String
  pub approved_by : String

-- `UPDATE lots SET weight_total_kg = $1, weight_available_kg = $2`
abbrev pub set_weights : ℕ → ℕ → ℤ → ℤ → Store → Store
set_weights lot_id org total available s = record s {
  lots =
      update (owned lot_id org)
        (λ l. record l {
          weight_total_kg = numeric_3 total;
          weight_available_kg = numeric_3 available;
        })
        s.lots;
}

module _ (adjustment_id : ℕ) (input : StockAdjustmentInput) (actor : AuthContext) where
  abbrev pub new_adjustment : StockAdjustment
  new_adjustment = record {
    id = adjustment_id;
    organization_id = actor.organization_id;
    lot_id = input.lot_id;
    adjustment_kg = numeric_3 input.adjustment_kg;
    reason = input.reason;
    approved_by = input.approved_by;
  }

  -- `INSERT INTO stock_adjustments`
  abbrev pub insert_adjustment : Tx Store (Unit {0})
  insert_adjustment =
      insert_unless (λ s. any (λ a. a.id == adjustment_id) s.stock_adjustments)
        (λ s. record s { stock_adjustments = new_adjustment ∷ s.stock_adjustments })

  -- The statements of `adjustStock` on the lot that its first query returns.
  unfoldable pub adjust_lot : Lot → Tx Store (StockAdjustment × String)
  adjust_lot lot = do
    let new_total = lot.weight_total_kg +ℤ input.adjustment_kg
    let new_available = lot.weight_available_kg +ℤ input.adjustment_kg
    throw_if (ltb_ℤ new_total minus_epsilon || ltb_ℤ new_available minus_epsilon)
        (api_error 409 (text "Adjustment would make lot quantity negative"))
    modify (
        set_weights input.lot_id actor.organization_id (max_ℤ new_total (pos 0))
          (max_ℤ new_available (pos 0)))
    refresh_lot_status input.lot_id (some actor.organization_id)
    insert_adjustment
    pure (new_adjustment, lot.lot_code)

  -- `adjustStock`, without the notification that follows its transaction; `adjustment_id` is the
  -- UUID that it draws. The result holds the lot code for the notification.
  unfoldable pub adjust_stock : Tx Store (StockAdjustment × String)
  unfolding find
  adjust_stock = with_transaction do
    lot ←
        or_throw (← gets (λ s. find (owned input.lot_id actor.organization_id) s.lots))
          (api_error 404 (not_found "Lot" input.lot_id))
    adjust_lot lot
