-- ===== src/Contracts/Balance.antt =====
-- Allocating whole grams keeps the totals of lots and contracts equal to their allocations.
use ceoma_api.Prelude.{ℕ, ◌≡◌, ℤ, ◌+ℤ◌, ◌-ℤ◌, int_laws, some, List, ◌∷◌, arith, ◌==◌, ◌≢◌, ◌&&◌}
use ceoma_api.Sql.{owned, find}
use ceoma_api.Sql.Laws.{update-All_change, find-All}
use ceoma_api.Quantity.{IsGrams, numeric_3, numeric_3_exact, +ℤ-IsGrams, -ℤ-IsGrams}
use ceoma_api.Store.{
  Store, Lot, Contract, Allocation, lot_row, contract_row, allocation_row, AuthContext, is_shipped,
}
use ceoma_api.Books.{
  IsSound, LotIsSound, ContractIsSound, IsBalanced, LotIsBalanced, ContractIsBalanced,
  allocated_where,
}
use ceoma_api.Books.Sums.{allocated_where-skip, allocated_where-add}
use ceoma_api.Books.Updates.{with_status-IsBalanced}
use ceoma_api.Contracts.{AllocationInput, allocate_lot, new_allocation}
use ceoma_api.Contracts.Outcomes.{taken_from, allocated_state, allocate_lot_keeps}

kept_sum : (t available kg sum : ℤ) → t ≡ available +ℤ sum → t ≡ (available -ℤ kg) +ℤ (kg +ℤ sum)
kept_sum t available kg sum e = rw e (omega int_laws)

module _ (allocation_id contract_id : ℕ) (input : AllocationInput) (actor : AuthContext) {s : Store}
    (h : IsSound s) (b : IsBalanced s) (grams : IsGrams input.allocated_kg) where
  abbrev added : Allocation
  added = new_allocation allocation_id contract_id input actor

  abbrev later : List Allocation
  later = added ∷ s.allocations

  lot_kept : (x : Lot) → LotIsBalanced s.allocations x → x.id ≢ input.lot_id → LotIsBalanced later x
  lot_kept x even other =
      rw (allocated_where-skip (λ a. a.lot_id == x.id) added s.allocations (ground arith)) even

  contract_kept :
      (x : Contract)
      → ContractIsBalanced s.allocations x
      → x.id ≢ contract_id
      → ContractIsBalanced later x
  contract_kept x even other = (
    rw (allocated_where-skip (λ a. a.contract_id == x.id) added s.allocations (ground arith))
        (even.0),
    rw
        (allocated_where-skip (λ a. a.contract_id == x.id && is_shipped a) added s.allocations
          (ground arith))
        (even.1),
  )

  module _ {c : Contract} {l : Lot}
      (contract_found : find (owned contract_id actor.organization_id) s.contracts ≡ some c)
      (lot_found : find (owned input.lot_id actor.organization_id) s.lots ≡ some l) where
    lot_moved : LotIsBalanced later (taken_from allocation_id contract_id input actor s l)
    lot_moved =
        let old : LotIsSound l = (find-All _ LotIsSound s.lots lot_found h.lots).1 in
        let (fits, even) = find-All _ (LotIsBalanced s.allocations) s.lots lot_found b.lots in
        rw
          (
            allocated_where-add (λ a. a.lot_id == l.id) added s.allocations (ground arith),
            numeric_3_exact input.allocated_kg grams,
            numeric_3_exact (l.weight_available_kg -ℤ input.allocated_kg)
                (-ℤ-IsGrams l.weight_available_kg input.allocated_kg old.1 grams),
          )
          (kept_sum l.weight_total_kg l.weight_available_kg input.allocated_kg
            (allocated_where (λ a. a.lot_id == l.id) s.allocations) even)

    contract_moved :
        ContractIsBalanced later
          (record c { allocated_kg = numeric_3 (c.allocated_kg +ℤ input.allocated_kg) })
    contract_moved =
        let old : ContractIsSound c =
          (find-All _ ContractIsSound s.contracts contract_found h.contracts).1 in
        let (fits, even) =
          find-All _ (ContractIsBalanced s.allocations) s.contracts contract_found b.contracts in
        (
          rw
              (
                allocated_where-add (λ a. a.contract_id == c.id) added s.allocations (ground arith),
                numeric_3_exact input.allocated_kg grams,
                numeric_3_exact (c.allocated_kg +ℤ input.allocated_kg)
                    (+ℤ-IsGrams c.allocated_kg input.allocated_kg old.1 grams),
                even.0,
              )
              (omega int_laws),
          rw
              (allocated_where-skip (λ a. a.contract_id == c.id && is_shipped a) added s.allocations
                (ground arith))
              (even.1),
        )

    allocated_state-IsBalanced :
        IsBalanced (allocated_state allocation_id contract_id input actor s l)
    allocated_state-IsBalanced =
        with_status-IsBalanced input.lot_id actor.organization_id _ (record {
          lots =
              update-All_change (LotIsBalanced s.allocations) (LotIsBalanced later) input.lot_id
                actor.organization_id _ s.lots h.lot_keys lot_found lot_kept lot_moved b.lots;
          contracts =
              update-All_change (ContractIsBalanced s.allocations) (ContractIsBalanced later)
                contract_id actor.organization_id _ s.contracts h.contract_keys contract_found
                contract_kept contract_moved b.contracts;
        })

  -- Allocating a whole number of grams in sound and balanced books, whatever the outcome,
  -- keeps every lot's total equal to what is available of it plus all that is allocated from
  -- it, so that no weight is sold twice, and every contract's allocated and shipped weights
  -- equal to the sums over its allocations.
  pub allocate_lot-IsBalanced : IsBalanced (allocate_lot allocation_id contract_id input actor s).1
  allocate_lot-IsBalanced =
      allocate_lot_keeps allocation_id contract_id input actor s IsBalanced b
        (λ c l found lot_found fits fits' new. allocated_state-IsBalanced found lot_found)
