-- ===== src/Contracts/HalfGrams.antt =====
-- An allocation of a weight that is not a whole number of grams. `allocationSchema` accepts any
-- positive number, and the columns round three times: the allocation, the contract and the lot.
use ceoma_api.Prelude.{
  ℕ, ◌≡◌, refl, ◌%◌, ◌-◌, ◌≤◌, ℤ, pos, negsuc, ◌+ℤ◌, ◌-ℤ◌, ◌≤ℤ◌, pos_part, neg_part, int_laws,
  -ℤ_parts, +ℤ_parts, eq_of_parts, true, some, ◌∷◌, arith, ◌==◌, ap, ◌∙◌,
}
use mathlib.Core.Path.{ap₂}
use ceoma_api.Errors.{is_ok}
use ceoma_api.Sql.{owned}
use ceoma_api.Sql.Laws.{find-All, find-update}
use ceoma_api.Quantity.{IsGrams, numeric_3}
use ceoma_api.Store.{Store, Lot, LotStatus, lot_row, AuthContext}
use ceoma_api.Books.{IsSound, LotIsSound, IsBalanced, LotIsBalanced, allocated_where}
use ceoma_api.Books.Sums.{allocated_where-add}
use ceoma_api.Contracts.{AllocationInput, new_allocation, allocate_lot}
use ceoma_api.Contracts.Outcomes.{moved, taken_from, allocated_state, read_lot, allocate_lot_lem}

-- The allocation is rounded up.
half_up : (n : ℕ) → n % 1000 ≡ 500 → numeric_3 (pos n) ≡ pos n +ℤ pos 500
unfolding numeric_3
half_up n h = eq_of_parts _ _ (omega (arith, +ℤ_parts (pos n) (pos 500)))

difference : (n m : ℕ) → n ≤ m → pos m -ℤ pos n ≡ pos (m - n)
difference n m h = eq_of_parts _ _ (omega (arith, -ℤ_parts (pos m) (pos n)))

-- What is left of the lot is rounded up too.
half_left :
    (n : ℕ) (w : ℤ)
    → n % 1000 ≡ 500
    → IsGrams w
    → pos n ≤ℤ w
    → numeric_3 (w -ℤ pos n) ≡ w -ℤ pos n +ℤ pos 500
unfolding numeric_3
half_left n (pos m) h g k =
    rw (difference n m (omega arith))
      (eq_of_parts _ _ (omega (arith, +ℤ_parts (pos (m - n)) (pos 500))))
half_left n (negsuc m) h g k = absurd (omega arith)

-- A gram too many stands on the two sides of the lot's equation.
gram_too_many :
    (t w kg sum : ℤ) → t ≡ w +ℤ sum → ¬ (t ≡ (w -ℤ kg +ℤ pos 500) +ℤ ((kg +ℤ pos 500) +ℤ sum))
gram_too_many t w kg sum e f =
    omega (int_laws, ap pos_part e, ap neg_part e, ap pos_part f, ap neg_part f)

module _ (allocation_id contract_id : ℕ) (input : AllocationInput) (actor : AuthContext)
    (s : Store) where
  half_gram_breaks :
      (n : ℕ) (l : Lot)
      → input.allocated_kg ≡ pos n
      → n % 1000 ≡ 500
      → IsSound s
      → IsBalanced s
      → read_lot allocation_id contract_id input actor s ≡ some l
      → pos n ≤ℤ l.weight_available_kg
      → ¬ IsBalanced (allocated_state allocation_id contract_id input actor s l)
  half_gram_breaks n l size half h b found enough after =
      let old : LotIsSound l = (find-All _ LotIsSound s.lots found h.lots).1 in
      let even : LotIsBalanced s.allocations l =
        (find-All _ (LotIsBalanced s.allocations) s.lots found b.lots).1 in
      let added = new_allocation allocation_id contract_id input actor in
      let located =
        find-update _ (taken_from allocation_id contract_id input actor s) s.lots (λ r. refl)
          found in
      let marked =
        find-update (owned input.lot_id actor.organization_id)
          (λ x. record x { status = LotStatus.allocated })
          (moved allocation_id contract_id input actor s).lots (λ r. refl) located in
      let claimed : LotIsBalanced (added ∷ s.allocations)
          (taken_from allocation_id contract_id input actor s l) =
        (find-All _ (LotIsBalanced (added ∷ s.allocations))
          (allocated_state allocation_id contract_id input actor s l).lots marked after.lots).1 in
      let fits : (input.lot_id == l.id) ≡ true =
        ground (arith, (find-All _ (LotIsBalanced s.allocations) s.lots found b.lots).0) in
      gram_too_many l.weight_total_kg l.weight_available_kg (pos n)
        (allocated_where (λ a. a.lot_id == l.id) s.allocations) even
        (claimed
          ∙ ap₂ ◌+ℤ◌
              (ap (λ kg. numeric_3 (l.weight_available_kg -ℤ kg)) size
                ∙ half_left n l.weight_available_kg half old.1 enough)
              (allocated_where-add (λ a. a.lot_id == l.id) added s.allocations fits
                ∙ ap (λ kg. kg +ℤ allocated_where (λ a. a.lot_id == l.id) s.allocations)
                    (ap numeric_3 size ∙ half_up n half)))

  -- From sound and balanced books, an accepted allocation of an odd half gram breaks the
  -- balance: the allocation is rounded up and the lot's remainder is rounded up too, so that
  -- one gram is both allocated and still available.
  pub allocate_lot_half_gram :
      (n : ℕ) (l : Lot)
      → input.allocated_kg ≡ pos n
      → n % 1000 ≡ 500
      → IsSound s
      → IsBalanced s
      → read_lot allocation_id contract_id input actor s ≡ some l
      → pos n ≤ℤ l.weight_available_kg
      → is_ok (allocate_lot allocation_id contract_id input actor s).0 ≡ true
      → ¬ IsBalanced (allocate_lot allocation_id contract_id input actor s).1
  allocate_lot_half_gram n l size half h b found enough =
      rw (allocate_lot_lem allocation_id contract_id input actor s, found)
        (ground (arith, half_gram_breaks n l size half h b found enough))
