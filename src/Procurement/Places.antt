-- ===== src/Procurement/Places.antt =====
-- The references of a new lot, and what a new lot does to the books.
use ceoma_api.Prelude.{
  ℕ, ◌≡◌, refl, ◌≢◌, ℤ, pos, ◌<ℤ◌, int_laws, false, some, All, All-map, String, ◌==◌, arith,
  if◌then◌else◌, inl, inr, Bool-cases,
}
use ceoma_api.Errors.{Result, ok, err, api_error, not_found}
use ceoma_api.Sql.Laws.{any-Absent}
use ceoma_api.Quantity.{numeric_3, numeric_3-IsGrams, numeric_3_nonneg}
use ceoma_api.Store.{Store, Lot, reference_row, lot_row}
use ceoma_api.DbHelpers.{has_row, table_has}
use ceoma_api.DbHelpers.Laws.{ensure_reference_lem}
use ceoma_api.Books.{IsSound, LotIsSound, IsBalanced}
use ceoma_api.Books.Sums.{allocated_where-none}
use ceoma_api.Procurement.{check_places, lot_clash, put_lot}

abbrev pub missing : String → ℕ → Result (Unit {0})
missing label id = err (api_error 404 (not_found label id))

module _ (grade_id warehouse_id bag_type_id org : ℕ) (s : Store) where
  abbrev pub places : Result (Unit {0})
  places =
      if has_row grade_id (some org) s.grades
      then (if has_row warehouse_id (some org) s.warehouses
          then (if has_row bag_type_id (some org) s.bag_types
              then ok tt
              else missing "Bag type" bag_type_id)
          else missing "Warehouse" warehouse_id)
      else missing "Grade" grade_id

  -- The references are checked in order, and the first one that the organization does not have is
  -- reported by 404; nothing is written.
  pub check_places_lem : check_places grade_id warehouse_id bag_type_id org s ≡ (places, s)
  unfolding check_places table_has
  check_places_lem =
      let grade = has_row grade_id (some org) s.grades in
      let warehouse = has_row warehouse_id (some org) s.warehouses in
      let bag = has_row bag_type_id (some org) s.bag_types in
      rw (ensure_reference_lem "grades" grade_id "Grade" (some org) s grade refl refl)
        (elim (Bool-cases grade) [
          | inr no_grade ↦ rw no_grade refl
          | inl graded ↦
              rw
                (
                  graded,
                  ensure_reference_lem "warehouses" warehouse_id "Warehouse" (some org) s warehouse
                      refl refl,
                )
                (elim (Bool-cases warehouse) [
                  | inr no_warehouse ↦ rw no_warehouse refl
                  | inl stored ↦
                      rw
                        (
                          stored,
                          ensure_reference_lem "bag_types" bag_type_id "Bag type" (some org) s bag
                              refl refl,
                        )
                        (elim (Bool-cases bag) [
                          | inr none' ↦ rw none' refl
                          | inl bagged ↦ rw bagged refl
                        ])
                ])
        ])

module _ (l : Lot) {s : Store} where
  -- A new lot, all of it available
  pub put_lot-IsSound : LotIsSound l → lot_clash l s ≡ false → IsSound s → IsSound (put_lot l s)
  put_lot-IsSound new fresh h = record {
    lot_keys = (any-Absent _ l.id s.lots (λ x e. ground arith) fresh, h.lot_keys);
    contract_keys = h.contract_keys;
    allocation_keys = h.allocation_keys;
    lots = (new, h.lots);
    contracts = h.contracts;
    allocations = h.allocations;
  }

  pub put_lot-IsBalanced :
      l.weight_total_kg ≡ l.weight_available_kg
      → All (λ a. a.lot_id ≢ l.id) s.allocations
      → IsBalanced s
      → IsBalanced (put_lot l s)
  put_lot-IsBalanced whole unnamed b = record {
    lots = (
      (rw
          (allocated_where-none (λ a. a.lot_id == l.id) s.allocations
            (All-map (λ a. a.lot_id ≢ l.id) _ s.allocations (λ a e. ground arith) unnamed))
          (rw whole (omega int_laws))),
      b.lots,
    );
    contracts = b.contracts;
  }

-- The weights of a lot as it is bought
pub bought-IsSound :
    (kg : ℤ) (l : Lot)
    → pos 0 <ℤ kg
    → l.weight_total_kg ≡ numeric_3 kg
    → l.weight_available_kg ≡ numeric_3 kg
    → LotIsSound l
bought-IsSound kg l positive total available =
    rw (total, available)
      (numeric_3-IsGrams kg, numeric_3-IsGrams kg, numeric_3_nonneg kg (omega arith), omega arith)
