-- ===== src/Imports.antt =====
-- src/modules/master/master.bulkImport.ts: the import of a spreadsheet of suppliers, buyers,
-- warehouses, grades or bag types, with the five configurations of
-- src/modules/master/master.service.ts. The xlsx library and the validation by zod are parameters.
mod Sheets
pub mod Accounts
pub mod Keys
pub mod Repeats
pub mod Inserts
pub mod Outcomes
pub mod Kinds
pub mod Template
unfoldable pub use Sheets.*
use Prim.Native.String
use ceoma_api.Prelude.{
  ℕ, suc, ◌+◌, Bool, true, false, not, ◌&&◌, Option, none, some, List, [], ◌∷◌, ◌++◌, map, any,
  length, is_some, String, ltb, ◌==◌, str_eq, if◌then◌else◌,
}
use ceoma_api.Errors.{Failure, text, about, api_error, pg_error, Result, ok, err}
use ceoma_api.Sql.{Row, select}
use ceoma_api.Store.{
  Tx, ◌>>=◌, ◌>>◌, gets, lift, throw_if, modify, pure, with_transaction, AuthContext,
}
use ceoma_api.Texts.{trim}
use ceoma_api.Pagination.{property}

-- What `safeParse` answers: the issues with their paths joined, or the input.
pub data Parse (Input : Type 0) : Type 0 where
  issues : List (String × String) → Parse Input
  valid : Input → Parse Input

-- `BulkImportConfig`; `existing_key` is the column that `existingKeysQuery` selects, and `to_row` makes
-- the row from `insertColumns` and `toInsertValues`.
pub record ImportConfig (Number Input R : Type 0) : Type 0 where
  pub entity_label : String
  pub columns : List Column
  pub schema : List (String × Cell Number) → Parse Input
  pub key_text : Input → String
  pub existing_key : R → String
  pub to_row : Input → (id organization_id : ℕ) → R

pub data SkipReason : Type 0 where
  existing in_file : SkipReason

-- What the loop finds of a row: it is not valid, its key is in the table or in an earlier row of the
-- file, or it is new.
pub data Verdict (Input : Type 0) : Type 0 where
  failed : List String → Verdict Input
  known repeated : Verdict Input
  fresh : Input → Verdict Input

pub record Queued (Input : Type 0) : Type 0 where
  pub id : ℕ
  pub input : Input
  pub row : ℕ

-- The lists that the loop fills, in the order of the rows
pub record Sorted (Input : Type 0) : Type 0 where
  pub queued : List (Queued Input)
  pub skipped : List (ℕ × SkipReason)
  pub errors : List (ℕ × List String)

-- `BulkImportResult`
pub record ImportResult : Type 0 where
  pub total_rows : ℕ
  pub inserted_count : ℕ
  pub skipped_count : ℕ
  pub error_count : ℕ
  pub inserted : List (ℕ × ℕ)
  pub skipped : List (ℕ × SkipReason)
  pub errors : List (ℕ × List String)

module _ {Input : Type 0} where
  abbrev pub no_rows : Sorted Input
  no_rows = record { queued = []; skipped = []; errors = [] }

-- `field ? `${field}: ${issue.message}` : issue.message`
abbrev pub issue_text : String × String → String
issue_text (field, message) =
    if str_eq field "" then message else String.◌++◌ field (String.◌++◌ ": " message)

abbrev pub check_columns : Option String → Result (Unit {0})
check_columns none = ok tt
check_columns (some header) =
    err (api_error 400 (text (String.◌++◌ "Missing required column: " header)))

module _ {Number Input R : Type 0} (lower : String → String)
    (config : ImportConfig Number Input R) where
  -- `dedupeKey`, of all five configurations
  abbrev pub dedupe_key : Input → String
  dedupe_key input = lower (trim (config.key_text input))

  -- The tests that a valid row goes through
  unfoldable pub judge : (existing_keys seen : List String) → Parse Input → Verdict Input
  unfolding trim
  judge existing_keys seen (issues found) = Verdict.failed (map issue_text found)
  judge existing_keys seen (valid input) =
      if any (str_eq (dedupe_key input)) existing_keys
      then Verdict.known
      else if any (str_eq (dedupe_key input)) seen
      then Verdict.repeated
      else Verdict.fresh input

  -- `seenInFile` after a row
  abbrev pub seen_after : Verdict Input → List String → List String
  seen_after (Verdict.fresh input) seen = dedupe_key input ∷ seen
  seen_after _ seen = seen

  module _ ⦃k : Row R⦄ where
    -- `existingKeys`
    unfoldable pub existing_keys_of : ℕ → List R → List String
    unfolding select trim
    existing_keys_of organization_id table =
        map (λ r. lower (trim (config.existing_key r)))
          (select (λ r. k.org_of r == organization_id) table)

-- The one `INSERT` of all the rows. `refuses` is what else the database has against a row: a number out of
-- the range of its column, or a policy.
unfoldable pub insert_rows :
    {Number Input R : Type 0} ⦃k : Row R⦄
    → (refuses : R → Option Failure) → ImportConfig Number Input R
    → ℕ
    → List (Queued Input)
    → Tx (List R) (Unit {0})
insert_rows refuses config organization_id [] table = (ok tt, table)
insert_rows ⦃k = k⦄ refuses config organization_id (q ∷ queued) table =
    let row = config.to_row q.input q.id organization_id in
    let rest = insert_rows refuses config organization_id queued (row ∷ table) in
    elim (refuses row) [
      | some e ↦ (err e, table)
      | none ↦ if any (λ r. k.id_of r == q.id) table then (err (pg_error "23505"), table) else rest
    ]

module _ {Input : Type 0} where
  -- What a row adds to the lists: `new_id` gives the random UUID for a row.
  abbrev pub place : (new_id : ℕ → ℕ) → ℕ → Verdict Input → Sorted Input → Sorted Input
  place new_id row (Verdict.failed why) s = record s { errors = (row, why) ∷ s.errors }
  place new_id row Verdict.known s = record s { skipped = (row, SkipReason.existing) ∷ s.skipped }
  place new_id row Verdict.repeated s = record s { skipped = (row, SkipReason.in_file) ∷ s.skipped }
  place new_id row (Verdict.fresh input) s = record s {
    queued = record { id = new_id row; input = input; row = row } ∷ s.queued;
  }

  abbrev pub result_of : ℕ → Sorted Input → ImportResult
  result_of total s = record {
    total_rows = total;
    inserted_count = length s.queued;
    skipped_count = length s.skipped;
    error_count = length s.errors;
    inserted = map (λ q. (q.row, q.id)) s.queued;
    skipped = s.skipped;
    errors = s.errors;
  }

module _ {Number Input R : Type 0} (lower : String → String) (number : String → Option Number)
    (config : ImportConfig Number Input R) (new_id : ℕ → ℕ) where
  -- `rawRows.forEach`
  unfoldable pub sort_rows :
      (fields : List (String × String)) (existing_keys seen : List String) (row : ℕ)
      → List (List (String × Cell Number))
      → Sorted Input
  unfolding map_row judge
  sort_rows fields existing_keys seen row [] = no_rows
  sort_rows fields existing_keys seen row (raw ∷ rest) =
      let verdict =
        judge lower config existing_keys seen
          (config.schema (map_row lower number raw config.columns fields)) in
      place new_id row verdict
        (sort_rows fields existing_keys (seen_after lower config verdict seen) (row + 1) rest)

  module _ ⦃k : Row R⦄ (refuses : R → Option Failure) where
    -- The loop and the second transaction, on the rows of the sheet
    unfoldable pub import_rows :
        (fields : List (String × String))
        → List (List (String × Cell Number))
        → AuthContext
        → Tx (List R) ImportResult
    unfolding sort_rows insert_rows existing_keys_of with_transaction
    import_rows fields rows actor = do
      existing_keys ← with_transaction (gets (existing_keys_of lower config actor.organization_id))
      let sorted = sort_rows fields existing_keys [] 2 rows
      with_transaction (insert_rows refuses config actor.organization_id sorted.queued)
      pure (result_of (length rows) sorted)

    -- `runBulkImport`
    unfoldable pub run_bulk_import : Workbook Number → AuthContext → Tx (List R) ImportResult
    unfolding parse_sheet_rows header_field_map lacking import_rows
    run_bulk_import file actor = do
      rows ← lift (parse_sheet_rows file)
      throw_if (length rows == 0) (api_error 400 (text "File contains no data rows to import"))
      throw_if (ltb 5000 (length rows))
          (api_error 400 (about "File contains too many rows; maximum is 5000, not" (length rows)))
      let fields = header_field_map lower number [] (first_row rows)
      lift (check_columns (lacking lower number fields config.columns))
      import_rows fields rows actor
