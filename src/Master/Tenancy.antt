-- ===== src/Master/Tenancy.antt =====
-- A change of master data leaves the rows of other organizations as they are
-- (src/modules/master/master.service.ts).
use ceoma_api.Prelude.{ℕ, ◌≡◌, refl, ◌∙◌, false, not, List, [], ◌∷◌, ◌==◌, arith, All}
use ceoma_api.Sql.{Row, owned, select, update}
use ceoma_api.Store.{Store, supplier_row, reference_row, AuthContext}
use ceoma_api.Master.{
  suppliers_table, buyers_table, warehouses_table, grades_table, bag_types_table, set_supplier,
  set_buyer, set_warehouse, set_grade, set_bag_type, new_supplier, blank_row,
}
use ceoma_api.Master.Statements.{create_row_keeps, update_row_keeps, delete_row_keeps}
use ceoma_api.Master.Calls.{Change, Request, change, change_all}

module _ {R : Type 0} ⦃k : Row R⦄ where
  -- The rows of an organization
  abbrev pub of_org : ℕ → List R → List R
  of_org org rs = select (λ r. k.org_of r == org) rs

  module _ (org mine : ℕ) (other : (mine == org) ≡ false) where
    of_org-cons : (r : R) (rs : List R) → k.org_of r ≡ mine → of_org org (r ∷ rs) ≡ of_org org rs
    unfolding select
    of_org-cons r rs e = rw (e, other)

    of_org-update :
        (id : ℕ) (f : R → R) (rs : List R)
        → ((r : R) → k.org_of (f r) ≡ k.org_of r)
        → of_org org (update (owned id mine) f rs) ≡ of_org org rs
    unfolding select update
    of_org-update id f [] same = refl
    of_org-update id f (r ∷ rs) same = ground (arith, same r, of_org-update id f rs same)

    of_org-select :
        (id : ℕ) (rs : List R) → of_org org (select (λ r. not (owned id mine r)) rs) ≡ of_org org rs
    unfolding select
    of_org-select id [] = refl
    of_org-select id (r ∷ rs) = ground (arith, of_org-select id rs)

-- The five tables hold the same rows of the organization, in the same order.
abbrev pub SameRows : ℕ → Store → Store → Type 0
SameRows org s s' =
    (of_org org s'.suppliers ≡ of_org org s.suppliers)
    × (of_org org s'.buyers ≡ of_org org s.buyers)
    × (of_org org s'.warehouses ≡ of_org org s.warehouses)
    × (of_org org s'.grades ≡ of_org org s.grades)
    × (of_org org s'.bag_types ≡ of_org org s.bag_types)

SameRows-refl : (org : ℕ) (s : Store) → SameRows org s s
SameRows-refl org s = (refl, refl, refl, refl, refl)

pub change-SameRows :
    (c : Change) (id : ℕ) (actor : AuthContext) (s : Store) (org : ℕ)
    → (actor.organization_id == org) ≡ false
    → SameRows org s (change c id actor s)
unfolding change
change-SameRows (Change.add_supplier input) id actor s org other =
    let row = new_supplier id input actor in
    create_row_keeps suppliers_table (SameRows org s) s row (SameRows-refl org s)
      (of_org-cons org actor.organization_id other row s.suppliers refl, refl, refl, refl, refl)
change-SameRows (Change.edit_supplier input) id actor s org other =
    update_row_keeps suppliers_table (SameRows org s) s id (set_supplier input) actor (
      of_org-update org actor.organization_id other id (set_supplier input) s.suppliers (λ r. refl),
      refl,
      refl,
      refl,
      refl,
    )
change-SameRows Change.drop_supplier id actor s org other =
    delete_row_keeps suppliers_table (SameRows org s) s id actor (SameRows-refl org s)
      (λ _. (of_org-select org actor.organization_id other id s.suppliers, refl, refl, refl, refl))
change-SameRows (Change.add_buyer input) id actor s org other =
    let row = set_buyer input (blank_row id actor) in
    create_row_keeps buyers_table (SameRows org s) s row (SameRows-refl org s)
      (refl, of_org-cons org actor.organization_id other row s.buyers refl, refl, refl, refl)
change-SameRows (Change.edit_buyer input) id actor s org other =
    update_row_keeps buyers_table (SameRows org s) s id (set_buyer input) actor (
      refl,
      of_org-update org actor.organization_id other id (set_buyer input) s.buyers (λ r. refl),
      refl,
      refl,
      refl,
    )
change-SameRows Change.drop_buyer id actor s org other =
    delete_row_keeps buyers_table (SameRows org s) s id actor (SameRows-refl org s)
      (λ _. (refl, of_org-select org actor.organization_id other id s.buyers, refl, refl, refl))
change-SameRows (Change.add_warehouse input) id actor s org other =
    let row = set_warehouse input (blank_row id actor) in
    create_row_keeps warehouses_table (SameRows org s) s row (SameRows-refl org s)
      (refl, refl, of_org-cons org actor.organization_id other row s.warehouses refl, refl, refl)
change-SameRows (Change.edit_warehouse input) id actor s org other =
    update_row_keeps warehouses_table (SameRows org s) s id (set_warehouse input) actor (
      refl,
      refl,
      of_org-update org actor.organization_id other id (set_warehouse input) s.warehouses
          (λ r. refl),
      refl,
      refl,
    )
change-SameRows Change.drop_warehouse id actor s org other =
    delete_row_keeps warehouses_table (SameRows org s) s id actor (SameRows-refl org s)
      (λ _. (refl, refl, of_org-select org actor.organization_id other id s.warehouses, refl, refl))
change-SameRows (Change.add_grade input) id actor s org other =
    let row = set_grade input (blank_row id actor) in
    create_row_keeps grades_table (SameRows org s) s row (SameRows-refl org s)
      (refl, refl, refl, of_org-cons org actor.organization_id other row s.grades refl, refl)
change-SameRows (Change.edit_grade input) id actor s org other =
    update_row_keeps grades_table (SameRows org s) s id (set_grade input) actor (
      refl,
      refl,
      refl,
      of_org-update org actor.organization_id other id (set_grade input) s.grades (λ r. refl),
      refl,
    )
change-SameRows Change.drop_grade_row id actor s org other =
    delete_row_keeps grades_table (SameRows org s) s id actor (SameRows-refl org s)
      (λ _. (refl, refl, refl, of_org-select org actor.organization_id other id s.grades, refl))
change-SameRows (Change.add_bag_type input) id actor s org other =
    let row = set_bag_type input (blank_row id actor) in
    create_row_keeps bag_types_table (SameRows org s) s row (SameRows-refl org s)
      (refl, refl, refl, refl, of_org-cons org actor.organization_id other row s.bag_types refl)
change-SameRows (Change.edit_bag_type input) id actor s org other =
    update_row_keeps bag_types_table (SameRows org s) s id (set_bag_type input) actor (
      refl,
      refl,
      refl,
      refl,
      of_org-update org actor.organization_id other id (set_bag_type input) s.bag_types (λ r. refl),
    )
change-SameRows Change.drop_bag_type id actor s org other =
    delete_row_keeps bag_types_table (SameRows org s) s id actor (SameRows-refl org s)
      (λ _. (refl, refl, refl, refl, of_org-select org actor.organization_id other id s.bag_types))

-- Any sequence of creations, updates and deletions of master data, accepted or refused, by users
-- of other organizations leaves an organization's suppliers, buyers, warehouses, grades and bag
-- types the same, in the same order.
pub change_all-SameRows :
    (requests : List Request) (s : Store) (org : ℕ)
    → All (λ r. (r.2.organization_id == org) ≡ false) requests
    → SameRows org s (change_all requests s)
unfolding change_all
change_all-SameRows [] s org _ = SameRows-refl org s
change_all-SameRows ((c, id, actor) ∷ requests) s org (other, others) =
    let now = change c id actor s in
    let first = change-SameRows c id actor s org other in
    let later = change_all-SameRows requests now org others in
    (later.0 ∙ first.0, later.1 ∙ first.1, later.2 ∙ first.2, later.3 ∙ first.3, later.4 ∙ first.4)
