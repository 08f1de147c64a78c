-- ===== src/Master.antt =====
-- src/modules/master/master.service.ts: creating, updating and deleting suppliers, buyers,
-- warehouses, grades and bag types. The foreign keys are those of prisma/migrations: a row that
-- another table needs cannot be deleted, but the grade of a contract is set to null.
pub mod Lists
pub mod Calls
pub mod Statements
pub mod Anchors
pub mod Removals
pub mod Changes
pub mod Tenancy
use ceoma_api.Prelude.{
  ℕ, ℤ, pos, Bool, true, false, not, ◌&&◌, ◌||◌, Option, none, some, List, [], ◌∷◌, String, ◌==◌,
  str_eq, if◌then◌else◌, any,
}
use mathlib.Core.Option
use Prim.Native.String
use ceoma_api.Errors.{Failure, Result, api_error, pg_error, text, not_found, ok, err}
use ceoma_api.Quantity.{numeric_3}
use ceoma_api.Sql.{Row, owned, find, select, update}
use ceoma_api.Store.{
  Store, Supplier, Reference, supplier_row, reference_row, AuthContext, Tx, ◌>>=◌, ◌>>◌, pure, gets,
  or_throw, modify, insert_unless, with_transaction,
}
use ceoma_api.Imports.Kinds.{SupplierInput, BuyerInput, WarehouseInput, GradeInput, BagTypeInput}

-- A table: its rows in the database, the name of its entity in messages, whether a row of another
-- table needs the row with an identifier, and what else deleting that row does.
pub record Table (R : Type 0) : Type 0 where
  pub rows : Store → List R
  pub put_rows : List R → Store → Store
  pub entity : String
  pub in_use : ℕ → Store → Bool
  pub after_delete : ℕ → Store → Store

-- `throwReferenceConflict`
unfoldable pub throw_reference_conflict : String → Failure → Failure
throw_reference_conflict entity (pg_error code) =
    if str_eq code "23503"
    then api_error 409 (text (String.◌++◌ entity " is in use and cannot be deleted"))
    else pg_error code
throw_reference_conflict entity e = e

-- `.catch`, with a handler that throws
abbrev pub caught : {S A : Type 0} → (Failure → Failure) → Result A × S → Result A × S
caught f (ok a, s) = (ok a, s)
caught f (err e, s) = (err (f e), s)

abbrev pub rethrow : {S A : Type 0} → (Failure → Failure) → Tx S A → Tx S A
rethrow f m s = caught f (m s)

module _ {R : Type 0} ⦃k : Row R⦄ (t : Table R) where
  -- `INSERT ... RETURNING *`
  unfoldable pub create_row : R → Tx Store R
  create_row row = with_transaction (do
    insert_unless (λ s. any (λ r. k.id_of r == k.id_of row) (t.rows s))
        (λ s. t.put_rows (row ∷ t.rows s) s)
    pure row)

  -- `UPDATE ... WHERE id AND organization_id RETURNING *`
  abbrev pub update_returning : (R → Bool) → (R → R) → Tx Store (Option R)
  update_returning p f s =
      (ok (Option.map f (find p (t.rows s))), t.put_rows (update p f (t.rows s)) s)

  unfoldable pub update_row : ℕ → (R → R) → AuthContext → Tx Store R
  update_row id f actor = do
    row ← with_transaction (update_returning (owned id actor.organization_id) f)
    or_throw row (api_error 404 (not_found t.entity id))

  -- `DELETE ... WHERE id AND organization_id RETURNING *`
  unfoldable pub delete_returning : ℕ → (R → Bool) → Tx Store (Option R)
  delete_returning id p s = elim (find p (t.rows s)) [
    | none ↦ (ok none, s)
    | some r ↦
        if t.in_use id s
        then (err (pg_error "23503"), s)
        else (ok (some r), t.after_delete id (t.put_rows (select (λ x. not (p x)) (t.rows s)) s))
  ]

  unfoldable pub delete_row : ℕ → AuthContext → Tx Store R
  unfolding throw_reference_conflict
  delete_row id actor = do
    row ←
        rethrow (throw_reference_conflict t.entity)
          (with_transaction (delete_returning id (owned id actor.organization_id)))
    or_throw row (api_error 404 (not_found t.entity id))

abbrev pub unchanged : ℕ → Store → Store
unchanged id s = s

abbrev pub suppliers_table : Table Supplier
suppliers_table = record {
  rows = λ s. s.suppliers;
  put_rows = λ rows s. record s { suppliers = rows };
  entity = "Supplier";
  in_use = λ id s.
      any (λ l. l.supplier_id == id) s.lots
      || any (λ a. a.supplier_id == id) s.direct_agreements
      || any (λ p. p.marketing_agent_id == id) s.auction_procurements;
  after_delete = unchanged;
}

abbrev pub buyers_table : Table Reference
buyers_table = record {
  rows = λ s. s.buyers;
  put_rows = λ rows s. record s { buyers = rows };
  entity = "Buyer";
  in_use = λ id s. any (λ c. c.buyer_id == id) s.contracts;
  after_delete = unchanged;
}

abbrev pub warehouses_table : Table Reference
warehouses_table = record {
  rows = λ s. s.warehouses;
  put_rows = λ rows s. record s { warehouses = rows };
  entity = "Warehouse";
  in_use = λ id s. any (λ l. l.warehouse_id == id) s.lots;
  after_delete = unchanged;
}

-- `ON DELETE SET NULL`
abbrev pub drop_grade : ℕ → Option ℕ → Option ℕ
drop_grade id none = none
drop_grade id (some g) = if g == id then none else some g

abbrev pub unset_grade : ℕ → Store → Store
unset_grade id s = record s {
  contracts =
      update (λ _. true) (λ c. record c { grade_id = drop_grade id c.grade_id }) s.contracts;
}

abbrev pub grades_table : Table Reference
grades_table = record {
  rows = λ s. s.grades;
  put_rows = λ rows s. record s { grades = rows };
  entity = "Grade";
  in_use = λ id s. any (λ l. l.grade_id == id) s.lots;
  after_delete = unset_grade;
}

abbrev pub bag_types_table : Table Reference
bag_types_table = record {
  rows = λ s. s.bag_types;
  put_rows = λ rows s. record s { bag_types = rows };
  entity = "Bag type";
  in_use = λ id s. any (λ l. l.bag_type_id == id) s.lots;
  after_delete = unchanged;
}

-- The values of the statements
abbrev pub set_supplier : SupplierInput → Supplier → Supplier
set_supplier input r = record r {
  name = input.name;
  supplier_type = input.supplier_type;
  country = input.country;
}

abbrev pub set_buyer : BuyerInput → Reference → Reference
set_buyer input r = record r { name = input.name; detail = input.country }

abbrev pub set_warehouse : WarehouseInput → Reference → Reference
set_warehouse input r = record r { name = input.name; detail = input.location }

abbrev pub set_grade : GradeInput → Reference → Reference
set_grade input r = record r { name = input.code; detail = input.description }

abbrev pub set_bag_type : BagTypeInput → Reference → Reference
set_bag_type input r = record r { name = input.name; weight_kg = numeric_3 input.weight_kg }

abbrev pub new_supplier : ℕ → SupplierInput → AuthContext → Supplier
new_supplier id input actor = record {
  id = id;
  organization_id = actor.organization_id;
  name = input.name;
  supplier_type = input.supplier_type;
  country = input.country;
}

-- A row of an organization, before its values are set
abbrev pub blank_row : ℕ → AuthContext → Reference
blank_row id actor = record {
  id = id;
  organization_id = actor.organization_id;
  name = "";
  detail = none;
  weight_kg = pos 0;
}

-- The UUID that is drawn is an argument.
module _ (id : ℕ) where
  unfoldable pub create_supplier : SupplierInput → AuthContext → Tx Store Supplier
  unfolding create_row
  create_supplier input actor = create_row suppliers_table (new_supplier id input actor)

  unfoldable pub update_supplier : SupplierInput → AuthContext → Tx Store Supplier
  unfolding update_row
  update_supplier input actor = update_row suppliers_table id (set_supplier input) actor

  unfoldable pub delete_supplier : AuthContext → Tx Store Supplier
  unfolding delete_row
  delete_supplier actor = delete_row suppliers_table id actor

  unfoldable pub create_buyer : BuyerInput → AuthContext → Tx Store Reference
  unfolding create_row
  create_buyer input actor = create_row buyers_table (set_buyer input (blank_row id actor))

  unfoldable pub update_buyer : BuyerInput → AuthContext → Tx Store Reference
  unfolding update_row
  update_buyer input actor = update_row buyers_table id (set_buyer input) actor

  unfoldable pub delete_buyer : AuthContext → Tx Store Reference
  unfolding delete_row
  delete_buyer actor = delete_row buyers_table id actor

  unfoldable pub create_warehouse : WarehouseInput → AuthContext → Tx Store Reference
  unfolding create_row
  create_warehouse input actor =
      create_row warehouses_table (set_warehouse input (blank_row id actor))

  unfoldable pub update_warehouse : WarehouseInput → AuthContext → Tx Store Reference
  unfolding update_row
  update_warehouse input actor = update_row warehouses_table id (set_warehouse input) actor

  unfoldable pub delete_warehouse : AuthContext → Tx Store Reference
  unfolding delete_row
  delete_warehouse actor = delete_row warehouses_table id actor

  unfoldable pub create_grade : GradeInput → AuthContext → Tx Store Reference
  unfolding create_row
  create_grade input actor = create_row grades_table (set_grade input (blank_row id actor))

  unfoldable pub update_grade : GradeInput → AuthContext → Tx Store Reference
  unfolding update_row
  update_grade input actor = update_row grades_table id (set_grade input) actor

  unfoldable pub delete_grade : AuthContext → Tx Store Reference
  unfolding delete_row
  delete_grade actor = delete_row grades_table id actor

  unfoldable pub create_bag_type : BagTypeInput → AuthContext → Tx Store Reference
  unfolding create_row
  create_bag_type input actor = create_row bag_types_table (set_bag_type input (blank_row id actor))

  unfoldable pub update_bag_type : BagTypeInput → AuthContext → Tx Store Reference
  unfolding update_row
  update_bag_type input actor = update_row bag_types_table id (set_bag_type input) actor

  unfoldable pub delete_bag_type : AuthContext → Tx Store Reference
  unfolding delete_row
  delete_bag_type actor = delete_row bag_types_table id actor
