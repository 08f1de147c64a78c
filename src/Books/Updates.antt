-- ===== src/Books/Updates.antt =====
-- The invariants under the refresh of a lot's status.
use ceoma_api.Prelude.{ℕ, refl}
use ceoma_api.Sql.{owned}
use ceoma_api.Sql.Laws.{update-All, Unique-update}
use ceoma_api.Store.{Store, LotStatus, lot_row}
use ceoma_api.DbHelpers.Laws.{with_status}
use ceoma_api.Books.{IsSound, LotIsSound, IsBalanced, LotIsBalanced}

module _ (lot_id org : ℕ) (status : LotStatus) {s : Store} where
  pub with_status-IsSound : IsSound s → IsSound (with_status lot_id org status s)
  with_status-IsSound h = record {
    lot_keys =
        Unique-update lot_id org (λ l. record l { status = status }) s.lots (λ r. refl) h.lot_keys;
    contract_keys = h.contract_keys;
    allocation_keys = h.allocation_keys;
    lots =
        update-All (owned lot_id org) LotIsSound (λ l. record l { status = status }) s.lots
          (λ r p. p) h.lots;
    contracts = h.contracts;
    allocations = h.allocations;
  }

  pub with_status-IsBalanced : IsBalanced s → IsBalanced (with_status lot_id org status s)
  with_status-IsBalanced h = record {
    lots =
        update-All (owned lot_id org) (LotIsBalanced s.allocations)
          (λ l. record l { status = status }) s.lots (λ r p. p) h.lots;
    contracts = h.contracts;
  }
