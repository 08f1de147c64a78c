-- ===== src/Imports/Sheets.antt =====
-- A sheet as the xlsx library reads it, and its rows by the columns of a configuration: the first half
-- of src/modules/master/master.bulkImport.ts.
use ceoma_api.Prelude.{
  Bool, not, ◌&&◌, Option, none, some, List, [], ◌∷◌, is_some, String, str_eq, if◌then◌else◌, ℕ,
}
use ceoma_api.Errors.{text, api_error, Result, ok, err}
use ceoma_api.Texts.{trim}
use ceoma_api.Pagination.{property}

-- A cell of a sheet, as the library reads it, or a value for a field: a text, a number, another
-- value such as a Boolean, or none at all (`undefined` and `null`).
pub data Cell (Number : Type 0) : Type 0 where
  cell_text : String → Cell Number
  cell_number : Number → Cell Number
  cell_other : ℕ → Cell Number
  missing : Cell Number

-- `BulkImportColumn`
pub record Column : Type 0 where
  pub header : String
  pub field : String
  pub required : Bool
  pub is_number : Bool
  pub example : Option String

-- What `XLSX.read` makes of the file: it throws, or returns a workbook with the rows of each sheet.
pub data Workbook (Number : Type 0) : Type 0 where
  unreadable : Workbook Number
  sheets : List (List (List (String × Cell Number))) → Workbook Number

-- `parseSheetRows`
unfoldable pub parse_sheet_rows :
    {Number : Type 0} → Workbook Number → Result (List (List (String × Cell Number)))
parse_sheet_rows unreadable =
    err
      (api_error 400 (text "Unable to parse file. Ensure it is a valid .xlsx, .xls, or .csv file"))
parse_sheet_rows (sheets []) = err (api_error 400 (text "File does not contain any sheets"))
parse_sheet_rows (sheets (rows ∷ _)) = ok rows

-- `rawRows[0]`
abbrev pub first_row : {A : Type 0} → List (List A) → List A
first_row [] = []
first_row (row ∷ _) = row

-- `lower` is `toLowerCase`, and `number` is `Number(text)`, or none where that is not a number.
module _ {Number : Type 0} (lower : String → String) (number : String → Option Number) where
  -- `buildHeaderFieldMap`: a later key with the same name stands before an earlier one.
  unfoldable pub header_field_map :
      List (String × String) → List (String × Cell Number) → List (String × String)
  unfolding trim
  header_field_map fields [] = fields
  header_field_map fields ((key, _) ∷ rest) =
      header_field_map ((lower (trim key), key) ∷ fields) rest

  -- The value of a field
  unfoldable pub field_value : Bool → Option (Cell Number) → Cell Number
  unfolding trim
  field_value is_number none = missing
  field_value is_number (some (cell_text t)) =
      let trimmed = trim t in
      if str_eq trimmed ""
      then missing
      else if not is_number
      then cell_text trimmed
      else elim (number trimmed) [ none ↦ cell_text trimmed | some n ↦ cell_number n ]
  field_value is_number (some other) = other

  -- The cell of a row for a column
  unfoldable pub cell_of :
      List (String × String) → List (String × Cell Number) → String → Option (Cell Number)
  unfolding property
  cell_of fields raw header = elim (property (lower header) fields) [
    | none ↦ none
    | some key ↦ property key raw
  ]

  -- `mapRow`
  unfoldable pub map_row :
      List (String × Cell Number)
      → List Column
      → List (String × String)
      → List (String × Cell Number)
  unfolding field_value cell_of
  map_row raw [] fields = []
  map_row raw (column ∷ columns) fields =
      (column.field, field_value column.is_number (cell_of fields raw column.header))
      ∷ map_row raw columns fields

  -- The first required column that the sheet lacks
  unfoldable pub lacking : List (String × String) → List Column → Option String
  unfolding property
  lacking fields [] = none
  lacking fields (column ∷ columns) =
      if column.required && not (is_some (property (lower column.header) fields))
      then some column.header
      else lacking fields columns
