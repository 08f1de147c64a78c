-- ===== src/Imports/Keys.antt =====
-- The keys by which an import tells rows apart: the names or codes, trimmed and in lower case.
use ceoma_api.Prelude.{
  ◌≡◌, refl, ap, ℕ, ◌+◌, ◌⊎◌, inl, inr, Bool, true, false, ◌||◌, List, [], ◌∷◌, any, String, Option,
  ◌==◌, str_eq, eq_iff, arith, Bool-cases,
}
use ceoma_api.Texts.{trim}
use ceoma_api.Sql.{Row, select}
use ceoma_api.Imports.{
  Cell, ImportConfig, Parse, Verdict, Queued, issues, valid, sort_rows, map_row, judge, seen_after,
  existing_keys_of, dedupe_key, place,
}

-- What a configuration owes: its rows carry the text that the key is made of, and their organization.
pub record KeepsKeys {Number Input R : Type 0} ⦃k : Row R⦄ (config : ImportConfig Number Input R)
    : Type 0 where
  pub same_key :
      (input : Input) (id org : ℕ)
      → config.existing_key (config.to_row input id org) ≡ config.key_text input
  pub same_org : (input : Input) (id org : ℕ) → k.org_of (config.to_row input id org) ≡ org

-- The table with these rows
unfoldable pub with_rows :
    {Number Input R : Type 0}
    → ImportConfig Number Input R
    → ℕ
    → List (Queued Input)
    → List R
    → List R
with_rows config organization_id [] table = table
with_rows config organization_id (q ∷ queued) table =
    with_rows config organization_id queued (config.to_row q.input q.id organization_id ∷ table)

abbrev pub has : String → List String → Bool
has key keys = any (str_eq key) keys

abbrev pub IsDistinct : List String → Type 0
IsDistinct [] = Unit
IsDistinct (key ∷ keys) = (has key keys ≡ false) × IsDistinct keys

abbrev pub Includes : List String → List String → Type 0
Includes larger keys = (key : String) → has key keys ≡ true → has key larger ≡ true

pub has-cons :
    (key other : String) (keys : List String)
    → has key (other ∷ keys) ≡ true
    → (key ≡ other) ⊎ (has key keys ≡ true)
has-cons key other keys h = elim (Bool-cases (str_eq key other)) [
  | inl same ↦ inl ((eq_iff key other).0 same)
  | inr differ ↦ inr (rw differ at h)
]

module _ {Number Input R : Type 0} (lower : String → String)
    (config : ImportConfig Number Input R) where
  -- A row is new if its key is neither in the table nor in an earlier row.
  judge_fresh :
      (existing_keys seen : List String) (p : Parse Input) {input : Input}
      → judge lower config existing_keys seen p ≡ Verdict.fresh input
      → (has (dedupe_key lower config input) existing_keys ≡ false)
        × (has (dedupe_key lower config input) seen ≡ false)
  unfolding judge
  judge_fresh existing_keys seen (issues found) e = cc
  judge_fresh existing_keys seen (valid other) e = ground arith

  module _ ⦃k : Row R⦄ (keeps : KeepsKeys config) where
    pub existing_keys-cons :
        (input : Input) (id org : ℕ) (table : List R)
        → existing_keys_of lower config org (config.to_row input id org ∷ table)
          ≡ dedupe_key lower config input ∷ existing_keys_of lower config org table
    unfolding existing_keys_of select
    existing_keys-cons input id org table =
        let own : (k.org_of (config.to_row input id org) == org) ≡ true =
          rw (keeps.same_org input id org) (ground arith) in
        rw own (
          ap (λ t. lower (trim t) ∷ existing_keys_of lower config org table)
            (keeps.same_key input id org))

module _ {Number Input R : Type 0} (lower : String → String) (number : String → Option Number)
    (config : ImportConfig Number Input R) (new_id : ℕ → ℕ) ⦃k : Row R⦄ (keeps : KeepsKeys config)
    (org : ℕ) (fields : List (String × String)) (existing_keys : List String) where
  abbrev pub keys_of : List R → List String
  keys_of table = existing_keys_of lower config org table

  abbrev pub Within : List String → List R → Type 0
  Within seen table =
      (key : String)
      → has key (keys_of table) ≡ true
      → (has key existing_keys || has key seen) ≡ true

  -- The table after the rows from one on
  abbrev pub filled : List (List (String × Cell Number)) → List String → ℕ → List R → List R
  filled rows seen row table =
      with_rows config org
        (sort_rows lower number config new_id fields existing_keys seen row rows).queued table

  abbrev pub StaysDistinct : List (List (String × Cell Number)) → Type 0
  StaysDistinct rows =
      (seen : List String) (row : ℕ) (table : List R)
      → Within seen table
      → IsDistinct (keys_of table)
      → IsDistinct (keys_of (filled rows seen row table))

  Within-cons :
      (seen : List String) (table : List R) (input : Input) (id : ℕ)
      → Within seen table
      → Within (dedupe_key lower config input ∷ seen) (config.to_row input id org ∷ table)
  Within-cons seen table input id within key h =
      let h' : has key (dedupe_key lower config input ∷ keys_of table) ≡ true =
        rw (existing_keys-cons lower config keeps input id org table) at h in
      elim (has-cons key (dedupe_key lower config input) (keys_of table) h') [
        | inl same ↦
            let e : str_eq key (dedupe_key lower config input) ≡ true = (eq_iff key _).1 same in
            ground arith
        | inr old ↦ let e = within key old in ground arith
      ]

  place-StaysDistinct :
      (rest : List (List (String × Cell Number)))
      → StaysDistinct rest
      → (seen : List String) (row : ℕ) (table : List R) (p : Parse Input) (v : Verdict Input)
      → judge lower config existing_keys seen p ≡ v
      → Within seen table
      → IsDistinct (keys_of table)
      → IsDistinct (
          keys_of (
            with_rows config org
              (place new_id row v (
                sort_rows lower number config new_id fields existing_keys
                  (seen_after lower config v seen)
                  (row + 1)
                  rest)).queued
              table))
  unfolding with_rows
  place-StaysDistinct rest ih seen row table p (Verdict.failed why) e within distinct =
      ih seen (row + 1) table within distinct
  place-StaysDistinct rest ih seen row table p Verdict.known e within distinct =
      ih seen (row + 1) table within distinct
  place-StaysDistinct rest ih seen row table p Verdict.repeated e within distinct =
      ih seen (row + 1) table within distinct
  place-StaysDistinct rest ih seen row table p (Verdict.fresh input) e within distinct =
      let new = judge_fresh lower config existing_keys seen p e in
      let absent : has (dedupe_key lower config input) (keys_of table) ≡ false =
        elim (Bool-cases (has (dedupe_key lower config input) (keys_of table))) [
          | inl there ↦ let h = within (dedupe_key lower config input) there in ground arith
          | inr gone ↦ gone
        ] in
      ih (dedupe_key lower config input ∷ seen) (row + 1)
        (config.to_row input (new_id row) org ∷ table)
        (Within-cons seen table input (new_id row) within)
        (rw (existing_keys-cons lower config keeps input (new_id row) org table) (absent, distinct))

  pub sort_rows-StaysDistinct : (rows : List (List (String × Cell Number))) → StaysDistinct rows
  unfolding sort_rows with_rows
  sort_rows-StaysDistinct [] seen row table within distinct = distinct
  sort_rows-StaysDistinct (raw ∷ rest) seen row table within distinct =
      place-StaysDistinct rest (sort_rows-StaysDistinct rest) seen row table
        (config.schema (map_row lower number raw config.columns fields)) _ refl within distinct
