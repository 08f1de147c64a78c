-- ===== src/Books/Sums.antt =====
-- Sums over the allocations, when one more is put in front or one changes.
use ceoma_api.Prelude.{◌≡◌, refl, All, [], pos, ◌+ℤ◌, int_laws, Bool, true, false, List, ◌∷◌}
use ceoma_api.Sql.{sum_where}
use ceoma_api.Store.{Allocation}
use ceoma_api.Books.{allocated_where}

module _ (q : Allocation → Bool) (a : Allocation) (as' : List Allocation) where
  -- One more allocation in front that is not counted.
  pub allocated_where-skip : q a ≡ false → allocated_where q (a ∷ as') ≡ allocated_where q as'
  unfolding sum_where
  allocated_where-skip e = rw e (omega int_laws)

  -- One that is counted.
  pub allocated_where-add :
      q a ≡ true → allocated_where q (a ∷ as') ≡ a.allocated_kg +ℤ allocated_where q as'
  unfolding sum_where
  allocated_where-add e = rw e

-- Allocations none of which fits add up to nothing.
pub allocated_where-none :
    (q : Allocation → Bool) (as' : List Allocation)
    → All (λ a. q a ≡ false) as'
    → allocated_where q as' ≡ pos 0
unfolding sum_where
allocated_where-none q [] h = refl
allocated_where-none q (a ∷ as') h = rw (h.0, allocated_where-none q as' h.1) (omega int_laws)
