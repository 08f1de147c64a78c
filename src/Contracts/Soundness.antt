-- ===== src/Contracts/Soundness.antt =====
-- Allocating keeps the weights sound: no contract beyond its quantity, no lot below zero.
use ceoma_api.Prelude.{
  ℕ, ◌≡◌, refl, ℤ, pos, ◌+ℤ◌, ◌-ℤ◌, ◌≤ℤ◌, ◌<ℤ◌, ltb_ℤ, int_laws, false, some, arith,
}
use ceoma_api.Sql.{owned, find}
use ceoma_api.Sql.Laws.{Unique-update, update-All_found, find-All, any-Absent}
use ceoma_api.Quantity.{
  epsilon, minus_epsilon, numeric_3, numeric_3-IsGrams, numeric_3_mono, numeric_3_nonneg,
  numeric_3_exact, numeric_3-le_grams,
}
use ceoma_api.Store.{Store, Lot, Contract, lot_row, contract_row, allocation_row, AuthContext}
use ceoma_api.Books.{IsSound, LotIsSound, ContractIsSound}
use ceoma_api.Books.Updates.{with_status-IsSound}
use ceoma_api.Contracts.{AllocationInput, allocate_lot}
use ceoma_api.Contracts.Outcomes.{
  moved, taken_from, allocated_state, exceeds_contract, exceeds_lot, id_taken, allocate_lot_keeps,
}

-- What the two guards say of the weights.
pub within_contract :
    (kg quantity allocated : ℤ)
    → ltb_ℤ epsilon (kg -ℤ (quantity -ℤ allocated)) ≡ false
    → allocated +ℤ kg ≤ℤ quantity +ℤ epsilon
within_contract kg quantity allocated h = grind (int_laws, h)

within_lot :
    (kg available : ℤ) → ltb_ℤ epsilon (kg -ℤ available) ≡ false → minus_epsilon ≤ℤ available -ℤ kg
within_lot kg available h = grind (int_laws, h)

sum_nonneg : (x y : ℤ) → pos 0 ≤ℤ x → pos 0 ≤ℤ y → minus_epsilon ≤ℤ x +ℤ y
sum_nonneg x y h k = omega int_laws

difference_le : (x y z : ℤ) → x ≤ℤ z → pos 0 ≤ℤ y → x -ℤ y ≤ℤ z
difference_le x y z h k = omega int_laws

module _ (allocation_id contract_id : ℕ) (input : AllocationInput) (actor : AuthContext) {s : Store}
    (h : IsSound s) (positive : pos 0 <ℤ input.allocated_kg) where
  module _ {c : Contract} {l : Lot}
      (contract_found : find (owned contract_id actor.organization_id) s.contracts ≡ some c)
      (lot_found : find (owned input.lot_id actor.organization_id) s.lots ≡ some l)
      (fits_contract : exceeds_contract allocation_id contract_id input actor s c ≡ false)
      (fits_lot : exceeds_lot allocation_id contract_id input actor s l ≡ false)
      (new : id_taken allocation_id contract_id input actor s ≡ false) where
    taken_from-IsSound : LotIsSound (taken_from allocation_id contract_id input actor s l)
    taken_from-IsSound =
        let old : LotIsSound l = (find-All _ LotIsSound s.lots lot_found h.lots).1 in
        let left : ℤ = l.weight_available_kg -ℤ input.allocated_kg in
        (
          old.0,
          numeric_3-IsGrams left,
          numeric_3_nonneg left (within_lot input.allocated_kg l.weight_available_kg fits_lot),
          rw (← numeric_3_exact l.weight_total_kg old.0) (
              numeric_3_mono left l.weight_total_kg (
                difference_le l.weight_available_kg input.allocated_kg l.weight_total_kg old.3
                  (omega arith))),
        )

    added-IsSound :
        ContractIsSound
          (record c { allocated_kg = numeric_3 (c.allocated_kg +ℤ input.allocated_kg) })
    added-IsSound =
        let old : ContractIsSound c =
          (find-All _ ContractIsSound s.contracts contract_found h.contracts).1 in
        let total : ℤ = c.allocated_kg +ℤ input.allocated_kg in
        (
          old.0,
          numeric_3-IsGrams total,
          old.2,
          numeric_3_nonneg total (sum_nonneg c.allocated_kg input.allocated_kg old.3 (omega arith)),
          numeric_3-le_grams total c.quantity_kg old.0
              (within_contract input.allocated_kg c.quantity_kg c.allocated_kg fits_contract),
          old.5,
          old.6,
        )

    moved-IsSound : IsSound (moved allocation_id contract_id input actor s)
    moved-IsSound = record {
      lot_keys = Unique-update input.lot_id actor.organization_id _ s.lots (λ r. refl) h.lot_keys;
      contract_keys =
          Unique-update contract_id actor.organization_id _ s.contracts (λ r. refl) h.contract_keys;
      allocation_keys =
          (any-Absent _ allocation_id s.allocations (λ r e. ground arith) new, h.allocation_keys);
      lots =
          update-All_found LotIsSound input.lot_id actor.organization_id _ s.lots h.lot_keys
            lot_found h.lots taken_from-IsSound;
      contracts =
          update-All_found ContractIsSound contract_id actor.organization_id _ s.contracts
            h.contract_keys contract_found h.contracts added-IsSound;
      allocations = (
        (numeric_3-IsGrams input.allocated_kg, numeric_3_nonneg input.allocated_kg (omega arith)),
        h.allocations,
      );
    }

    allocated_state-IsSound : IsSound (allocated_state allocation_id contract_id input actor s l)
    allocated_state-IsSound = with_status-IsSound input.lot_id actor.organization_id _ moved-IsSound

  -- Allocating a positive weight in sound books, whatever the outcome, leaves no contract
  -- allocated beyond its quantity and no lot with less than nothing available: the tolerance
  -- of the two guards is lost in the rounding to whole grams, and never adds up.
  pub allocate_lot-IsSound : IsSound (allocate_lot allocation_id contract_id input actor s).1
  allocate_lot-IsSound =
      allocate_lot_keeps allocation_id contract_id input actor s IsSound h
        (λ c l found lot_found fits fits' new.
          allocated_state-IsSound found lot_found fits fits' new)
