-- ===== src/Master/Statements.antt =====
-- What the statements on a table of master data do and keep (src/modules/master/master.service.ts).
use ceoma_api.Prelude.{
  ℕ, ◌≡◌, Bool, true, false, not, none, some, ◌∷◌, ◌==◌, any, Bool-cases, Option-cases, inl, inr,
}
use ceoma_api.Errors.{ok, err, pg_error}
use ceoma_api.Sql.{Row, owned, find, select, update}
use ceoma_api.Store.{Store, AuthContext, with_transaction}
use ceoma_api.Master.{Table, create_row, update_row, delete_returning, delete_row}

-- The three outcomes of `DELETE`
module _ {R : Type 0} ⦃k : Row R⦄ (t : Table R) (id : ℕ) (p : R → Bool) (s : Store) where
  delete_returning_missing : find p (t.rows s) ≡ none → delete_returning t id p s ≡ (ok none, s)
  unfolding delete_returning
  delete_returning_missing missing = rw (missing, delete_returning)

  delete_returning_used :
      {r : R}
      → find p (t.rows s) ≡ some r
      → t.in_use id s ≡ true
      → delete_returning t id p s ≡ (err (pg_error "23503"), s)
  unfolding delete_returning
  delete_returning_used found used = rw (found, delete_returning) (rw used)

  delete_returning_free :
      {r : R}
      → find p (t.rows s) ≡ some r
      → t.in_use id s ≡ false
      → delete_returning t id p s
        ≡ (ok (some r), t.after_delete id (t.put_rows (select (λ x. not (p x)) (t.rows s)) s))
  unfolding delete_returning
  delete_returning_free found free = rw (found, delete_returning) (rw free)

-- What the three statements keep, whatever they answer.
module _ {R : Type 0} ⦃k : Row R⦄ (t : Table R) (P : Store → Type 0) (s : Store) where
  pub create_row_keeps :
      (row : R) → P s → P (t.put_rows (row ∷ t.rows s) s) → P (create_row t row s).1
  unfolding create_row with_transaction
  create_row_keeps row h grown =
      elim (Bool-cases (any (λ r. k.id_of r == k.id_of row) (t.rows s))) [
        | inl clash ↦ rw clash h
        | inr fresh ↦ rw fresh grown
      ]

  pub update_row_keeps :
      (id : ℕ) (f : R → R) (actor : AuthContext)
      → P (t.put_rows (update (owned id actor.organization_id) f (t.rows s)) s)
      → P (update_row t id f actor s).1
  unfolding update_row with_transaction
  update_row_keeps id f actor changed =
      elim (Option-cases (find (owned id actor.organization_id) (t.rows s))) [
        | inl missing ↦ rw missing changed
        | inr (r, found) ↦ rw found changed
      ]

  pub delete_row_keeps :
      (id : ℕ) (actor : AuthContext)
      → P s
      → (t.in_use id s ≡ false
          → P (
              t.after_delete id
                (t.put_rows (select (λ x. not (owned id actor.organization_id x)) (t.rows s)) s)))
      → P (delete_row t id actor s).1
  unfolding delete_row with_transaction
  delete_row_keeps id actor h removed =
      let mine = owned id actor.organization_id in
      elim (Option-cases (find mine (t.rows s))) [
        | inl missing ↦ rw (delete_returning_missing t id mine s missing) h
        | inr (r, found) ↦ elim (Bool-cases (t.in_use id s)) [
          | inl used ↦ rw (delete_returning_used t id mine s found used) h
          | inr free ↦ rw (delete_returning_free t id mine s found free) (removed free)
        ]
      ]
