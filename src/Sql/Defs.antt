-- ===== src/Sql/Defs.antt =====
-- Tables and the statements on them.
use ceoma_api.Prelude.{
  ℕ, zero, suc, ℤ, pos, ◌+ℤ◌, Bool, ◌&&◌, Option, none, some, List, [], ◌∷◌, ◌==◌, if◌then◌else◌,
}

-- The two columns by which the services address a row.
pub record Row (R : Type 0) : Type 0 where
  pub id_of : R → ℕ
  pub org_of : R → ℕ

module _ {R : Type 0} where
  -- `WHERE id = $1 AND organization_id = $2`
  abbrev pub owned : ⦃k : Row R⦄ → ℕ → ℕ → R → Bool
  owned ⦃k⦄ id org r = k.id_of r == id && k.org_of r == org

  -- The first row that fits; with a primary key in the condition, the only one.
  unfoldable pub find : (R → Bool) → List R → Option R
  find p [] = none
  find p (r ∷ rs) = if p r then some r else find p rs

  unfoldable pub select : (R → Bool) → List R → List R
  select p [] = []
  select p (r ∷ rs) = if p r then r ∷ select p rs else select p rs

  unfoldable pub update : (R → Bool) → (R → R) → List R → List R
  update p f [] = []
  update p f (r ∷ rs) = (if p r then f r else r) ∷ update p f rs

  unfoldable pub count : (R → Bool) → List R → ℕ
  count p [] = 0
  count p (r ∷ rs) = if p r then suc (count p rs) else count p rs

  -- `SUM` of a column over the rows that fit
  unfoldable pub sum_where : (R → Bool) → (R → ℤ) → List R → ℤ
  sum_where p g [] = pos 0
  sum_where p g (r ∷ rs) = (if p r then g r else pos 0) +ℤ sum_where p g rs

  -- `OFFSET` and `LIMIT`
  unfoldable pub offset : ℕ → List R → List R
  offset zero rs = rs
  offset (suc n) [] = []
  offset (suc n) (r ∷ rs) = offset n rs

  unfoldable pub limit : ℕ → List R → List R
  limit zero rs = []
  limit (suc n) [] = []
  limit (suc n) (r ∷ rs) = r ∷ limit n rs
