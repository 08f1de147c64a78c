-- ===== src/Master/Changes.antt =====
-- No change of master data breaks a foreign key (src/modules/master/master.service.ts).
use ceoma_api.Prelude.{ℕ, refl, List, [], ◌∷◌}
use ceoma_api.Sql.{owned}
use ceoma_api.Store.{Store, supplier_row, reference_row, AuthContext}
use ceoma_api.Books.Links.{update-HasRow, cons-HasRow}
use ceoma_api.Master.{
  suppliers_table, buyers_table, warehouses_table, grades_table, bag_types_table, set_supplier,
  set_buyer, set_warehouse, set_grade, set_bag_type, new_supplier, blank_row,
}
use ceoma_api.Master.Statements.{create_row_keeps, update_row_keeps, delete_row_keeps}
use ceoma_api.Master.Calls.{Change, Request, change, change_all}
use ceoma_api.Master.Anchors.{
  IsAnchored, suppliers-IsAnchored, buyers-IsAnchored, warehouses-IsAnchored, grades-IsAnchored,
  bag_types-IsAnchored,
}
use ceoma_api.Master.Removals.{
  supplier-removed, buyer-removed, warehouse-removed, grade-removed, bag_type-removed,
}

-- Whatever a change of master data answers, the references stay.
pub change-IsAnchored :
    (c : Change) (id : ℕ) (actor : AuthContext) (s : Store)
    → IsAnchored s
    → IsAnchored (change c id actor s)
unfolding change
change-IsAnchored (Change.add_supplier input) id actor s h =
    let row = new_supplier id input actor in
    create_row_keeps suppliers_table IsAnchored s row h
      (suppliers-IsAnchored s h (row ∷ s.suppliers) (λ j r. cons-HasRow j row s.suppliers r))
change-IsAnchored (Change.edit_supplier input) id actor s h =
    update_row_keeps suppliers_table IsAnchored s id (set_supplier input) actor (
      suppliers-IsAnchored s h _ (λ j r.
        update-HasRow j (owned id actor.organization_id) (set_supplier input) s.suppliers
          (λ x. refl) r))
change-IsAnchored Change.drop_supplier id actor s h =
    delete_row_keeps suppliers_table IsAnchored s id actor h
      (supplier-removed s h id actor.organization_id)
change-IsAnchored (Change.add_buyer input) id actor s h =
    let row = set_buyer input (blank_row id actor) in
    create_row_keeps buyers_table IsAnchored s row h
      (buyers-IsAnchored s h (row ∷ s.buyers) (λ j r. cons-HasRow j row s.buyers r))
change-IsAnchored (Change.edit_buyer input) id actor s h =
    update_row_keeps buyers_table IsAnchored s id (set_buyer input) actor (
      buyers-IsAnchored s h _ (λ j r.
        update-HasRow j (owned id actor.organization_id) (set_buyer input) s.buyers (λ x. refl) r))
change-IsAnchored Change.drop_buyer id actor s h =
    delete_row_keeps buyers_table IsAnchored s id actor h
      (buyer-removed s h id actor.organization_id)
change-IsAnchored (Change.add_warehouse input) id actor s h =
    let row = set_warehouse input (blank_row id actor) in
    create_row_keeps warehouses_table IsAnchored s row h
      (warehouses-IsAnchored s h (row ∷ s.warehouses) (λ j r. cons-HasRow j row s.warehouses r))
change-IsAnchored (Change.edit_warehouse input) id actor s h =
    update_row_keeps warehouses_table IsAnchored s id (set_warehouse input) actor (
      warehouses-IsAnchored s h _ (λ j r.
        update-HasRow j (owned id actor.organization_id) (set_warehouse input) s.warehouses
          (λ x. refl) r))
change-IsAnchored Change.drop_warehouse id actor s h =
    delete_row_keeps warehouses_table IsAnchored s id actor h
      (warehouse-removed s h id actor.organization_id)
change-IsAnchored (Change.add_grade input) id actor s h =
    let row = set_grade input (blank_row id actor) in
    create_row_keeps grades_table IsAnchored s row h
      (grades-IsAnchored s h (row ∷ s.grades) (λ j r. cons-HasRow j row s.grades r))
change-IsAnchored (Change.edit_grade input) id actor s h =
    update_row_keeps grades_table IsAnchored s id (set_grade input) actor (
      grades-IsAnchored s h _ (λ j r.
        update-HasRow j (owned id actor.organization_id) (set_grade input) s.grades (λ x. refl) r))
change-IsAnchored Change.drop_grade_row id actor s h =
    delete_row_keeps grades_table IsAnchored s id actor h
      (grade-removed s h id actor.organization_id)
change-IsAnchored (Change.add_bag_type input) id actor s h =
    let row = set_bag_type input (blank_row id actor) in
    create_row_keeps bag_types_table IsAnchored s row h
      (bag_types-IsAnchored s h (row ∷ s.bag_types) (λ j r. cons-HasRow j row s.bag_types r))
change-IsAnchored (Change.edit_bag_type input) id actor s h =
    update_row_keeps bag_types_table IsAnchored s id (set_bag_type input) actor (
      bag_types-IsAnchored s h _ (λ j r.
        update-HasRow j (owned id actor.organization_id) (set_bag_type input) s.bag_types
          (λ x. refl) r))
change-IsAnchored Change.drop_bag_type id actor s h =
    delete_row_keeps bag_types_table IsAnchored s id actor h
      (bag_type-removed s h id actor.organization_id)

-- Any sequence of creations, updates and deletions of suppliers, buyers, warehouses, grades and
-- bag types, accepted or refused, by any users, keeps every lot's supplier, grade, warehouse and
-- bag type, every contract's buyer and grade, if it has one, and every agreement's and auction
-- record's supplier in the database.
pub change_all-IsAnchored :
    (requests : List Request) (s : Store) → IsAnchored s → IsAnchored (change_all requests s)
unfolding change_all
change_all-IsAnchored [] s h = h
change_all-IsAnchored ((c, id, actor) ∷ requests) s h =
    change_all-IsAnchored requests (change c id actor s) (change-IsAnchored c id actor s h)
