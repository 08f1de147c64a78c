-- ===== src/Tests/Imports.antt =====
-- A sheet of suppliers, of which two rows have one name.
use Prim.Native.String
use ceoma_api.Prelude.{◌≡◌, refl, ℕ, ◌+◌, not, ◌||◌, true, none, Option, List, [], ◌∷◌, String}
use ceoma_api.Errors.{Failure, is_ok}
use ceoma_api.Store.{Supplier, SupplierType, supplier_row}
use ceoma_api.Imports.{
  Cell, Workbook, Parse, sheets, run_bulk_import, existing_keys_of, cell_text, parse_sheet_rows,
  header_field_map, lacking, import_rows,
}
use ceoma_api.Imports.Keys.{IsDistinct}
use ceoma_api.Imports.Outcomes.{run_bulk_import-IsDistinct, run_bulk_import-again}
use ceoma_api.Imports.Kinds.{SupplierInput, supplier_import, supplier_import-KeepsKeys}
use ceoma_api.Imports.Template.{
  csv_field, has_special, has_return, read_field, read_field-csv_field,
}
use ceoma_api.Tests.Data.{trader_a, agent_a, farmer_a}

-- Every row has a name, and is a farmer.
abbrev schema : List (String × Cell ℕ) → Parse SupplierInput
schema ((_, cell_text name) ∷ _) =
    Parse.valid (record { name = name; supplier_type = SupplierType.farmer; country = none })
schema _ = Parse.issues (("name", "Required") ∷ [])

abbrev same : String → String
same t = t

abbrev no_number : String → Option ℕ
no_number _ = none

abbrev named_row : String → List (String × Cell ℕ)
named_row name = ("name", cell_text name) ∷ []

abbrev sheet : Workbook ℕ
sheet = sheets ((named_row "Mill" ∷ named_row "Mill " ∷ named_row "Farm" ∷ []) ∷ [])

abbrev table : List Supplier
table = agent_a ∷ farmer_a ∷ []

abbrev first_id : ℕ → ℕ
first_id row = row + 100

abbrev second_id : ℕ → ℕ
second_id row = row + 200

-- The numeric columns take the rows, and the policies too.
abbrev takes_all : Supplier → Option Failure
takes_all _ = none

run_bulk_import-IsDistinct_example : IsDistinct (
    existing_keys_of same
      (supplier_import schema)
      1
      (run_bulk_import same no_number
        (supplier_import schema)
        first_id
        takes_all
        sheet
        trader_a
        table).1)
unfolding existing_keys_of supplier_import
run_bulk_import-IsDistinct_example =
    run_bulk_import-IsDistinct same no_number (supplier_import schema)
      (supplier_import-KeepsKeys schema) first_id takes_all sheet trader_a table (refl, (refl, tt))

first_accepted :
    is_ok
      (run_bulk_import same no_number
        (supplier_import schema)
        first_id
        takes_all
        sheet
        trader_a
        table).0
    ≡ true
unfolding run_bulk_import parse_sheet_rows header_field_map lacking import_rows supplier_import
first_accepted = refl

run_bulk_import-again_example :
    (run_bulk_import same no_number
      (supplier_import schema)
      second_id
      takes_all
      sheet
      trader_a
      (run_bulk_import same no_number
        (supplier_import schema)
        first_id
        takes_all
        sheet
        trader_a
        table).1).1
    ≡ (run_bulk_import same no_number
        (supplier_import schema)
        first_id
        takes_all
        sheet
        trader_a
        table).1
run_bulk_import-again_example =
    run_bulk_import-again same no_number (supplier_import schema) (supplier_import-KeepsKeys schema)
      first_id second_id takes_all takes_all sheet trader_a table first_accepted

quoted : (has_special "a \"b\", c" || not (has_return "a \"b\", c")) ≡ true
unfolding has_special has_return
quoted = refl

read_field-csv_field_example :
    read_field (String.◌++◌ (csv_field "a \"b\", c") (String.◌∷◌ "," "rest"))
    ≡ ("a \"b\", c", String.◌∷◌ "," "rest")
read_field-csv_field_example = read_field-csv_field "," refl "rest" "a \"b\", c" quoted
