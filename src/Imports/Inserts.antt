-- ===== src/Imports/Inserts.antt =====
-- The `INSERT` of an import (src/modules/master/master.bulkImport.ts).
use ceoma_api.Prelude.{
  ◌≡◌, ◌⊎◌, inl, inr, refl, ap, ℕ, true, Option, some, List, [], ◌∷◌, ◌++◌, any, ◌==◌, Bool-cases,
  Option-cases,
}
use ceoma_api.Errors.{Failure, pg_error, ok, err}
use ceoma_api.Sql.{Row}
use ceoma_api.Imports.{ImportConfig, Queued, insert_rows}
use ceoma_api.Imports.Keys.{with_rows}

module _ {Number Input R : Type 0} ⦃k : Row R⦄ (refuses : R → Option Failure)
    (config : ImportConfig Number Input R) (org : ℕ) where
  -- The row at which the statement fails: the database refuses it, or its UUID is that of a row of the
  -- table or of an earlier one of the statement.
  abbrev pub IsBlocked : Failure → List (Queued Input) → List R → Type 0
  IsBlocked e queued table =
      (earlier later : List (Queued Input)) × (q : Queued Input) × (queued ≡ earlier ++ (q ∷ later))
      × ((refuses (config.to_row q.input q.id org) ≡ some e)
          ⊎ ((e ≡ pg_error "23505")
              × (any (λ r. k.id_of r == q.id) (with_rows config org earlier table) ≡ true)))

  -- The statement fails at a row, or it adds all of them.
  pub insert_rows-cases :
      (queued : List (Queued Input)) (table : List R)
      → ((e : Failure) × (t : List R) × (insert_rows refuses config org queued table ≡ (err e, t))
          × IsBlocked e queued table)
        ⊎ (insert_rows refuses config org queued table ≡ (ok tt, with_rows config org queued table))
  unfolding insert_rows with_rows
  insert_rows-cases [] table = inr refl
  insert_rows-cases (q ∷ queued) table =
      let row = config.to_row q.input q.id org in
      elim (Option-cases (refuses row)) [
        | inr (e, bad) ↦ inl (e, table, rw (insert_rows, bad) refl, ([], queued, q, refl, inl bad))
        | inl fine ↦ elim (Bool-cases (any (λ r. k.id_of r == q.id) table)) [
          | inl twice ↦ inl (
            pg_error "23505",
            table,
            rw (insert_rows, fine) (rw twice refl),
            ([], queued, q, refl, inr (refl, twice)),
          )
          | inr new ↦ elim (insert_rows-cases queued (row ∷ table)) [
            | inl (e, t, failed, (earlier, later, p, same, why)) ↦ inl (
              e,
              t,
              rw (insert_rows, fine) (rw new failed),
              (q ∷ earlier, later, p, ap (λ l. q ∷ l) same, why),
            )
            | inr done ↦ inr (rw (insert_rows, fine) (rw new done))
          ]
        ]
      ]
