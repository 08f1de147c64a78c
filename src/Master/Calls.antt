-- ===== src/Master/Calls.antt =====
-- A call of a service on master data (src/modules/master/master.service.ts).
use ceoma_api.Prelude.{ℕ, List, [], ◌∷◌}
use ceoma_api.Store.{Store, AuthContext}
use ceoma_api.Imports.Kinds.{SupplierInput, BuyerInput, WarehouseInput, GradeInput, BagTypeInput}
use ceoma_api.Master.{
  create_supplier, update_supplier, delete_supplier, create_buyer, update_buyer, delete_buyer,
  create_warehouse, update_warehouse, delete_warehouse, create_grade, update_grade, delete_grade,
  create_bag_type, update_bag_type, delete_bag_type,
}

pub data Change : Type 0 where
  add_supplier edit_supplier : SupplierInput → Change
  add_buyer edit_buyer : BuyerInput → Change
  add_warehouse edit_warehouse : WarehouseInput → Change
  add_grade edit_grade : GradeInput → Change
  add_bag_type edit_bag_type : BagTypeInput → Change
  drop_supplier drop_buyer drop_warehouse drop_grade_row drop_bag_type : Change

-- What a change leaves, accepted or refused; the number is the UUID of the row.
unfoldable pub change : Change → ℕ → AuthContext → Store → Store
unfolding create_supplier update_supplier delete_supplier create_buyer update_buyer delete_buyer
    create_warehouse update_warehouse delete_warehouse create_grade update_grade delete_grade
    create_bag_type update_bag_type delete_bag_type
change (Change.add_supplier input) id actor s = (create_supplier id input actor s).1
change (Change.edit_supplier input) id actor s = (update_supplier id input actor s).1
change Change.drop_supplier id actor s = (delete_supplier id actor s).1
change (Change.add_buyer input) id actor s = (create_buyer id input actor s).1
change (Change.edit_buyer input) id actor s = (update_buyer id input actor s).1
change Change.drop_buyer id actor s = (delete_buyer id actor s).1
change (Change.add_warehouse input) id actor s = (create_warehouse id input actor s).1
change (Change.edit_warehouse input) id actor s = (update_warehouse id input actor s).1
change Change.drop_warehouse id actor s = (delete_warehouse id actor s).1
change (Change.add_grade input) id actor s = (create_grade id input actor s).1
change (Change.edit_grade input) id actor s = (update_grade id input actor s).1
change Change.drop_grade_row id actor s = (delete_grade id actor s).1
change (Change.add_bag_type input) id actor s = (create_bag_type id input actor s).1
change (Change.edit_bag_type input) id actor s = (update_bag_type id input actor s).1
change Change.drop_bag_type id actor s = (delete_bag_type id actor s).1

-- A change, the UUID of its row and who asks for it
abbrev pub Request : Type 0
Request = Change × ℕ × AuthContext

unfoldable pub change_all : List Request → Store → Store
change_all [] s = s
change_all ((c, id, actor) ∷ requests) s = change_all requests (change c id actor s)
