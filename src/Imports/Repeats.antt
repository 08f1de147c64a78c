-- ===== src/Imports/Repeats.antt =====
-- The same file, imported again.
use ceoma_api.Prelude.{
  ◌≡◌, ◌⊎◌, sym, refl, ◌∙◌, ℕ, ◌+◌, true, List, [], ◌∷◌, All, String, Option, str_eq, eq_iff, arith,
  Bool-cases, inl, inr,
}
use ceoma_api.Sql.{Row}
use ceoma_api.Imports.{
  Cell, ImportConfig, Parse, Sorted, Queued, Verdict, issues, valid, sort_rows, map_row, judge,
  seen_after, existing_keys_of, dedupe_key, place,
}
use ceoma_api.Imports.Keys.{KeepsKeys, with_rows, existing_keys-cons, has, has-cons, Includes}

module _ {Number Input R : Type 0} (lower : String → String)
    (config : ImportConfig Number Input R) where
  -- The key of the row is one of these.
  abbrev pub KeyIn : List String → Queued Input → Type 0
  KeyIn keys q = has (dedupe_key lower config q.input) keys ≡ true

module _ {Number Input R : Type 0} (lower : String → String) (number : String → Option Number)
    (config : ImportConfig Number Input R) where
  judge_again :
      (existing_keys seen keys again : List String) (p : Parse Input) (v : Verdict Input)
      → judge lower config existing_keys seen p ≡ v
      → Includes keys existing_keys
      → Includes keys seen
      → ((input : Input)
          → v ≡ Verdict.fresh input
          → has (dedupe_key lower config input) keys ≡ true)
      → ((why : List String) × (judge lower config keys again p ≡ Verdict.failed why))
        ⊎ (judge lower config keys again p ≡ Verdict.known)
  unfolding judge
  judge_again existing_keys seen keys again (issues found) v e old new placed = inl (_, refl)
  judge_again existing_keys seen keys again (valid input) v e old new placed =
      elim (Bool-cases (has (dedupe_key lower config input) existing_keys)) [
        | inl there ↦ inr (rw (old _ there))
        | inr unknown ↦ elim (Bool-cases (has (dedupe_key lower config input) seen)) [
          | inl twice ↦ inr (rw (new _ twice))
          | inr first ↦ inr (rw (placed input (sym e ∙ rw unknown (rw first))))
        ]
      ]

  place_none :
      (new_id : ℕ → ℕ) (row : ℕ) (v : Verdict Input) (s : Sorted Input)
      → ((why : List String) × (v ≡ Verdict.failed why)) ⊎ (v ≡ Verdict.known)
      → s.queued ≡ []
      → (place new_id row v s).queued ≡ []
  place_none new_id row v s (inl (why, e)) h = rw e h
  place_none new_id row v s (inr e) h = rw e h

  module _ (fields : List (String × String)) (existing_keys keys : List String)
      (old : Includes keys existing_keys) where
    abbrev pub QueuesNothing : List (List (String × Cell Number)) → Type 0
    QueuesNothing rows =
        (new_id new_id' : ℕ → ℕ) (seen again : List String) (row row' : ℕ)
        → Includes keys seen
        → All (KeyIn lower config keys)
            (sort_rows lower number config new_id fields existing_keys seen row rows).queued
        → (sort_rows lower number config new_id' fields keys again row' rows).queued ≡ []

    Includes-cons :
        (seen : List String) (input : Input)
        → Includes keys seen
        → has (dedupe_key lower config input) keys ≡ true
        → Includes keys (dedupe_key lower config input ∷ seen)
    Includes-cons seen input new there key h =
        elim (has-cons key (dedupe_key lower config input) seen h) [
          | inl same ↦ rw same there
          | inr earlier ↦ new key earlier
        ]

    place-QueuesNothing :
        (rest : List (List (String × Cell Number)))
        → QueuesNothing rest
        → (new_id new_id' : ℕ → ℕ) (seen again : List String) (row row' : ℕ) (p : Parse Input)
          (v w : Verdict Input)
        → judge lower config existing_keys seen p ≡ v
        → judge lower config keys again p ≡ w
        → Includes keys seen
        → All
            (KeyIn lower config keys)
            (place new_id row v (
              sort_rows lower number config new_id fields existing_keys
                (seen_after lower config v seen)
                (row + 1)
                rest)).queued
        → (place new_id' row' w (
            sort_rows lower number config new_id' fields keys
              (seen_after lower config w again)
              (row' + 1)
              rest)).queued
          ≡ []
    place-QueuesNothing rest ih new_id new_id' seen again row row' p v w e e' new placed =
        let (still, fresh_in) = parts v placed in
        place_none new_id' row' w _
          (rw e' at (judge_again existing_keys seen keys again p v e old new fresh_in))
          (ih new_id new_id' (seen_after lower config v seen) (seen_after lower config w again)
            (row + 1) (row' + 1) (grown v new fresh_in) still)
      where
        parts :
            (v : Verdict Input)
            → All
                (KeyIn lower config keys)
                (place new_id row v (
                  sort_rows lower number config new_id fields existing_keys
                    (seen_after lower config v seen)
                    (row + 1)
                    rest)).queued
            → All
                (KeyIn lower config keys)
                (sort_rows lower number config new_id fields existing_keys
                  (seen_after lower config v seen)
                  (row + 1)
                  rest).queued
              × ((input : Input)
                  → v ≡ Verdict.fresh input
                  → has (dedupe_key lower config input) keys ≡ true)
        parts (Verdict.failed why) h = (h, λ input x. cc)
        parts Verdict.known h = (h, λ input x. cc)
        parts Verdict.repeated h = (h, λ input x. cc)
        parts (Verdict.fresh other) (first, h) =
            (h, λ input x. let same : other ≡ input = cc in rw (← same) first)

        grown :
            (v : Verdict Input)
            → Includes keys seen
            → ((input : Input)
                → v ≡ Verdict.fresh input
                → has (dedupe_key lower config input) keys ≡ true)
            → Includes keys (seen_after lower config v seen)
        grown (Verdict.failed why) h _ = h
        grown Verdict.known h _ = h
        grown Verdict.repeated h _ = h
        grown (Verdict.fresh input) h first = Includes-cons seen input h (first input refl)

    pub sort_rows-QueuesNothing : (rows : List (List (String × Cell Number))) → QueuesNothing rows
    unfolding sort_rows
    sort_rows-QueuesNothing [] new_id new_id' seen again row row' new placed = refl
    sort_rows-QueuesNothing (raw ∷ rest) new_id new_id' seen again row row' new placed =
        place-QueuesNothing rest (sort_rows-QueuesNothing rest) new_id new_id' seen again row row'
          (config.schema (map_row lower number raw config.columns fields)) _ _ refl refl new placed

-- The keys of the table after an insert: those before, and those of the rows.
module _ {Number Input R : Type 0} (lower : String → String) (config : ImportConfig Number Input R)
    ⦃k : Row R⦄ (keeps : KeepsKeys config) (org : ℕ) where
  pub with_rows-Includes :
      (queued : List (Queued Input)) (table : List R)
      → Includes
          (existing_keys_of lower config org (with_rows config org queued table))
          (existing_keys_of lower config org table)
  unfolding with_rows
  with_rows-Includes [] table key h = h
  with_rows-Includes (q ∷ queued) table key h =
      with_rows-Includes queued (config.to_row q.input q.id org ∷ table) key
        (rw (existing_keys-cons lower config keeps q.input q.id org table) (ground arith))

  pub with_rows-KeyIn :
      (queued : List (Queued Input)) (table : List R)
      → All
          (KeyIn lower config
            (existing_keys_of lower config org (with_rows config org queued table)))
          queued
  unfolding with_rows
  with_rows-KeyIn [] table = tt
  with_rows-KeyIn (q ∷ queued) table =
      let key = dedupe_key lower config q.input in
      let same : str_eq key key ≡ true = (eq_iff key key).1 refl in
      (
        with_rows-Includes queued (config.to_row q.input q.id org ∷ table) key
            (rw (existing_keys-cons lower config keeps q.input q.id org table) (rw same refl)),
        with_rows-KeyIn queued (config.to_row q.input q.id org ∷ table),
      )
