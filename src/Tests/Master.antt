-- ===== src/Tests/Master.antt =====
-- Changes of master data at a concrete database.
use ceoma_api.Prelude.{◌≡◌, refl, some, List, [], ◌∷◌}
use ceoma_api.Errors.{err, api_error, text}
use ceoma_api.Sql.{find}
use ceoma_api.Store.{SupplierType, with_transaction}
use ceoma_api.Imports.Kinds.{SupplierInput}
use ceoma_api.Master.{delete_supplier, delete_returning}
use ceoma_api.Master.Calls.{Change, Request, change_all}
use ceoma_api.Master.Anchors.{IsAnchored}
use ceoma_api.Master.Changes.{change_all-IsAnchored}
use ceoma_api.Master.Tenancy.{SameRows, change_all-SameRows}
use ceoma_api.Tests.Data.{store_a, trader_a}

abbrev mill : SupplierInput
mill = record { name = "Mill"; supplier_type = SupplierType.mill; country = some "Kenya" }

-- The farmer has supplied a lot; the grade 4 is in use; the new supplier 60 is not.
abbrev requests : List Request
requests =
    (Change.drop_supplier, 2, trader_a)
    ∷ (Change.add_supplier mill, 60, trader_a)
    ∷ (Change.drop_grade_row, 4, trader_a)
    ∷ (Change.drop_supplier, 60, trader_a)
    ∷ []

store_a-IsAnchored : IsAnchored store_a
store_a-IsAnchored = record {
  lots_anchored = ((refl, refl, refl, refl), tt);
  contracts_anchored = ((refl, tt), tt);
  agreements_anchored = (refl, tt);
  auctions_anchored = tt;
}

change_all-IsAnchored_example : IsAnchored (change_all requests store_a)
change_all-IsAnchored_example = change_all-IsAnchored requests store_a store_a-IsAnchored

change_all-SameRows_example : SameRows 2 store_a (change_all requests store_a)
change_all-SameRows_example =
    change_all-SameRows requests store_a 2 (refl, (refl, (refl, (refl, tt))))

delete_used :
    (delete_supplier 2 trader_a store_a).0
    ≡ err (api_error 409 (text "Supplier is in use and cannot be deleted"))
unfolding delete_supplier delete_returning with_transaction find
delete_used = refl
