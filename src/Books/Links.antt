-- ===== src/Books/Links.antt =====
-- Every allocation names a lot and a contract that are there, as the foreign keys of the table demand.
use ceoma_api.Prelude.{
  ℕ, ◌≡◌, ◌≢◌, Bool, true, false, List, [], ◌∷◌, some, All, All-map, any, arith, ◌==◌,
}
use mathlib.Core.Bool.{false≢true}
use ceoma_api.Sql.{Row, owned, find, update}
use ceoma_api.Store.{Store, lot_row, contract_row}

module _ {R : Type 0} ⦃k : Row R⦄ where
  -- A row with this identifier
  abbrev pub HasRow : ℕ → List R → Type 0
  HasRow id rs = any (λ r. k.id_of r == id) rs ≡ true

  pub find-HasRow :
      (id org : ℕ) (rs : List R) {r : R} → find (owned id org) rs ≡ some r → HasRow id rs
  unfolding find
  find-HasRow id org [] e = cc
  find-HasRow id org (x ∷ xs) {r} e = ground (arith, find-HasRow id org xs {r = r})

  pub update-HasRow :
      (id : ℕ) (p : R → Bool) (f : R → R) (rs : List R)
      → ((r : R) → k.id_of (f r) ≡ k.id_of r)
      → HasRow id rs
      → HasRow id (update p f rs)
  unfolding update
  update-HasRow id p f [] same h = h
  update-HasRow id p f (x ∷ xs) same h = ground (arith, same x, update-HasRow id p f xs same)

  pub cons-HasRow : (id : ℕ) (x : R) (rs : List R) → HasRow id rs → HasRow id (x ∷ rs)
  cons-HasRow id x rs h = ground (arith, h)

  -- A condition that every row with the identifier fits, and that no row fits
  pub HasRow-absurd :
      (id : ℕ) (q : R → Bool) (rs : List R)
      → ((r : R) → k.id_of r ≡ id → q r ≡ true)
      → any q rs ≡ false
      → ¬ HasRow id rs
  HasRow-absurd id q [] fits e h = false≢true h
  HasRow-absurd id q (x ∷ xs) fits e h = ground (arith, fits x, HasRow-absurd id q xs fits)

abbrev pub IsLinked : Store → Type 0
IsLinked s = All (λ a. HasRow a.lot_id s.lots × HasRow a.contract_id s.contracts) s.allocations

-- No allocation names what is not there.
pub IsLinked-lot_fresh :
    (id : ℕ) (s : Store) → ¬ HasRow id s.lots → IsLinked s → All (λ a. a.lot_id ≢ id) s.allocations
IsLinked-lot_fresh id s fresh h =
    All-map (λ a. HasRow a.lot_id s.lots × HasRow a.contract_id s.contracts) (λ a. a.lot_id ≢ id)
      s.allocations (λ a p e. fresh (rw (← e) p.0)) h

pub IsLinked-contract_fresh :
    (id : ℕ) (s : Store)
    → ¬ HasRow id s.contracts
    → IsLinked s
    → All (λ a. a.contract_id ≢ id) s.allocations
IsLinked-contract_fresh id s fresh h =
    All-map (λ a. HasRow a.lot_id s.lots × HasRow a.contract_id s.contracts)
      (λ a. a.contract_id ≢ id) s.allocations (λ a p e. fresh (rw (← e) p.1)) h

-- More rows, or other columns of the same rows
pub IsLinked-grow :
    (s t : Store)
    → ((id : ℕ) → HasRow id s.lots → HasRow id t.lots)
    → ((id : ℕ) → HasRow id s.contracts → HasRow id t.contracts)
    → s.allocations ≡ t.allocations
    → IsLinked s
    → IsLinked t
IsLinked-grow s t lots contracts same h = rw (← same) (
    All-map (λ a. HasRow a.lot_id s.lots × HasRow a.contract_id s.contracts)
      (λ a. HasRow a.lot_id t.lots × HasRow a.contract_id t.contracts) s.allocations
      (λ a p. (lots a.lot_id p.0, contracts a.contract_id p.1)) h)
