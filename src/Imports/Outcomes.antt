-- ===== src/Imports/Outcomes.antt =====
-- The import as a whole.
use ceoma_api.Prelude.{
  ◌≡◌, ◌⊎◌, inl, inr, sym, refl, ap, ◌∙◌, ℕ, ◌+◌, true, false, List, [], ◌∷◌, ◌++◌, map, length,
  String, Option, ◌==◌, ltb, Bool-cases, Option-cases,
}
use Prim.Native.String
use mathlib.Core.List.{Perm}
use ceoma_api.Errors.{Failure, text, about, api_error, ok, err, is_ok, error_status}
use ceoma_api.Sql.{Row}
use ceoma_api.Store.{AuthContext, with_transaction}
use ceoma_api.Imports.{
  Cell, Workbook, ImportConfig, Queued, ImportResult, parse_sheet_rows, header_field_map, first_row,
  lacking, sort_rows, existing_keys_of, import_rows, run_bulk_import, unreadable, sheets,
}
use ceoma_api.Imports.Accounts.{numbers_from}
use ceoma_api.Imports.Keys.{KeepsKeys, with_rows, IsDistinct, sort_rows-StaysDistinct}
use ceoma_api.Imports.Inserts.{IsBlocked, insert_rows-cases}
use ceoma_api.Imports.Repeats.{sort_rows-QueuesNothing, with_rows-Includes, with_rows-KeyIn}

module _ {Number Input R : Type 0} (lower : String → String) (number : String → Option Number)
    (config : ImportConfig Number Input R) ⦃k : Row R⦄ where
  -- A file is refused whatever the table holds, or its rows are imported.
  abbrev Refused : Workbook Number → AuthContext → Type 0
  Refused file actor =
      (e : Failure) × (error_status e ≡ 400)
      × ((new_id : ℕ → ℕ) (refuses : R → Option Failure) (table : List R)
          → run_bulk_import lower number config new_id refuses file actor table ≡ (err e, table))

  abbrev Taken : Workbook Number → AuthContext → Type 0
  Taken file actor =
      (rows : List (List (String × Cell Number))) × (parse_sheet_rows file ≡ ok rows)
      × ((new_id : ℕ → ℕ) (refuses : R → Option Failure) (table : List R)
          → run_bulk_import lower number config new_id refuses file actor table
            ≡ import_rows lower number config new_id refuses
                (header_field_map lower number [] (first_row rows)) rows actor table)

  run_bulk_import-cases :
      (file : Workbook Number) (actor : AuthContext) → Refused file actor ⊎ Taken file actor
  unfolding run_bulk_import parse_sheet_rows error_status
  run_bulk_import-cases unreadable actor = inl (_, refl, λ new_id refuses table. refl)
  run_bulk_import-cases (sheets []) actor = inl (_, refl, λ new_id refuses table. refl)
  run_bulk_import-cases (sheets (rows ∷ others)) actor = elim (Bool-cases (length rows == 0)) [
    | inl empty ↦ inl (
      api_error 400 (text "File contains no data rows to import"),
      refl,
      λ new_id refuses table. rw empty refl,
    )
    | inr more ↦ elim (Bool-cases (ltb 5000 (length rows))) [
      | inl many ↦ inl (
        api_error 400 (about "File contains too many rows; maximum is 5000, not" (length rows)),
        refl,
        λ new_id refuses table. rw more (rw many refl),
      )
      | inr few ↦
          elim (Option-cases (
            lacking lower number (header_field_map lower number [] (first_row rows))
              config.columns)) [
                | inr (header, lacks) ↦ inl (
                  api_error 400 (text (String.◌++◌ "Missing required column: " header)),
                  refl,
                  λ new_id refuses table. rw more (rw few (rw lacks refl)),
                )
                | inl complete ↦
                    inr (rows, refl, λ new_id refuses table. rw more (rw few (rw complete refl)))
              ]
    ]
  ]

  -- Every row of the file is reported once
  abbrev pub Accounted : Workbook Number → ImportResult → Type 0
  Accounted file r =
      (rows : List (List (String × Cell Number))) × (parse_sheet_rows file ≡ ok rows)
      × (r.total_rows ≡ length rows)
      × (r.inserted_count + r.skipped_count + r.error_count ≡ r.total_rows)
      × Perm (map (λ x. x.0) r.inserted ++ (map (λ x. x.0) r.skipped ++ map (λ x. x.0) r.errors))
          (numbers_from 2 rows)

  -- The rows that the import of this file finds to be new
  abbrev pub new_rows :
      (new_id : ℕ → ℕ)
      → List (List (String × Cell Number))
      → AuthContext
      → List R
      → List (Queued Input)
  new_rows new_id rows actor table =
      (sort_rows lower number config new_id (header_field_map lower number [] (first_row rows))
        (existing_keys_of lower config actor.organization_id table) [] 2 rows).queued

  -- The insert fails at one of them.
  abbrev pub FailsToInsert :
      (ℕ → ℕ) → (R → Option Failure) → Workbook Number → AuthContext → List R → Failure → Type 0
  FailsToInsert new_id refuses file actor table e =
      (rows : List (List (String × Cell Number))) × (parse_sheet_rows file ≡ ok rows)
      × IsBlocked refuses config actor.organization_id e (new_rows new_id rows actor table) table

  -- The table after an import that is not refused for its file
  import_rows-cases :
      (new_id : ℕ → ℕ) (refuses : R → Option Failure) (rows : List (List (String × Cell Number)))
      (actor : AuthContext) (table : List R)
      → let after =
          import_rows lower number config new_id refuses
            (header_field_map lower number [] (first_row rows))
            rows
            actor
            table in
        ((e : Failure) × (after ≡ (err e, table)))
        ⊎ (after.1
            ≡ with_rows config actor.organization_id (new_rows new_id rows actor table) table)
  unfolding import_rows with_transaction
  import_rows-cases new_id refuses rows actor table =
      elim (insert_rows-cases refuses config actor.organization_id
        (new_rows new_id rows actor table) table) [
          | inl (e, t, failed, why) ↦ inl (e, rw failed refl)
          | inr done ↦ inr (rw done refl)
        ]

  module _ (keeps : KeepsKeys config) where
    -- An import, whatever its outcome, keeps the names of the organization's rows, trimmed
    -- and in lower case, distinct if they were, for a configuration whose rows carry the
    -- name of the input and the organization.
    pub run_bulk_import-IsDistinct :
        (new_id : ℕ → ℕ) (refuses : R → Option Failure) (file : Workbook Number)
        (actor : AuthContext) (table : List R)
        → IsDistinct (existing_keys_of lower config actor.organization_id table)
        → IsDistinct (
            existing_keys_of lower config actor.organization_id
              (run_bulk_import lower number config new_id refuses file actor table).1)
    run_bulk_import-IsDistinct new_id refuses file actor table distinct =
        elim (run_bulk_import-cases file actor) [
          | inl (e, status, refused) ↦ rw (refused new_id refuses table) distinct
          | inr (rows, parsed, taken) ↦
              rw (taken new_id refuses table)
                (elim (import_rows-cases new_id refuses rows actor table) [
                  | inl (e, failed) ↦ rw failed distinct
                  | inr added ↦ rw added (
                      sort_rows-StaysDistinct lower number config new_id keeps actor.organization_id
                        (header_field_map lower number [] (first_row rows))
                        (existing_keys_of lower config actor.organization_id table) rows [] 2 table
                        (λ key there. rw there refl) distinct)
                ])
        ]

    -- After an import that was accepted, importing the same file again, by the same user and
    -- into the table that the first import left, leaves that table as it is, whether the
    -- second import is accepted or not, and whatever the UUIDs and the rows that the
    -- database refuses, for a configuration whose rows carry the name of the input and the
    -- organization.
    pub run_bulk_import-again :
        (new_id new_id' : ℕ → ℕ) (refuses refuses' : R → Option Failure) (file : Workbook Number)
        (actor : AuthContext) (table : List R)
        → is_ok (run_bulk_import lower number config new_id refuses file actor table).0 ≡ true
        → (run_bulk_import lower number config new_id' refuses' file actor
            (run_bulk_import lower number config new_id refuses file actor table).1).1
          ≡ (run_bulk_import lower number config new_id refuses file actor table).1
    unfolding with_rows
    run_bulk_import-again new_id new_id' refuses refuses' file actor table done =
        let first = run_bulk_import lower number config new_id refuses file actor table in
        elim (run_bulk_import-cases file actor) [
          | inl (e, status, refused) ↦ ap (λ p. p.1) (refused new_id' refuses' first.1)
          | inr (rows, parsed, taken) ↦ elim (import_rows-cases new_id refuses rows actor table) [
            | inl (e, failed) ↦
                let no : first ≡ (err e, table) = taken new_id refuses table ∙ failed in
                let bad : false ≡ true = rw no at done in absurd cc
            | inr added ↦
                let org = actor.organization_id in
                let before = existing_keys_of lower config org table in
                let queued = new_rows new_id rows actor table in
                let table' = with_rows config org queued table in
                let after = existing_keys_of lower config org table' in
                let none_left : new_rows new_id' rows actor table' ≡ [] =
                  sort_rows-QueuesNothing lower number config
                    (header_field_map lower number [] (first_row rows)) before after
                    (with_rows-Includes lower config keeps org queued table) rows new_id new_id' []
                    [] 2 2 (λ key h. cc) (with_rows-KeyIn lower config keeps org queued table) in
                let e : first.1 ≡ table' = ap (λ p. p.1) (taken new_id refuses table) ∙ added in
                let second = import_rows-cases new_id' refuses' rows actor table' in
                ap (λ t. (run_bulk_import lower number config new_id' refuses' file actor t).1) e
                ∙ ap (λ p. p.1) (taken new_id' refuses' table')
                ∙ elim second [
                  | inl (f, failed) ↦ ap (λ p. p.1) failed
                  | inr again ↦ again ∙ ap (λ q. with_rows config org q table') none_left
                ]
                ∙ sym e
          ]
        ]
