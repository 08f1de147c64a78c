-- ===== src/Inventory/Laws.antt =====
-- The stock adjustment keeps the books, and refuses exactly what would leave a negative weight.
use ceoma_api.Prelude.{
  ℕ, ◌≡◌, refl, ℤ, pos, ◌+ℤ◌, ◌≤ℤ◌, int_laws, +ℤ_parts, Bool, false, String, Option, none, some,
  arith, Option-cases, ||-eq-false, max_ℤ, inl, inr, Bool-cases, ltb_ℤ, ◌||◌, any, ◌==◌, ◌∷◌,
  if◌then◌else◌,
}
use ceoma_api.Errors.{Result, ok, err, api_error, pg_error, text, not_found}
use ceoma_api.Sql.{owned, find}
use ceoma_api.Sql.Laws.{Unique-update, update-All_found, find-All, find-update}
use ceoma_api.Quantity.{
  IsGrams, minus_epsilon, numeric_3, numeric_3-IsGrams, numeric_3_mono, numeric_3_nonneg,
  numeric_3_exact, +ℤ-IsGrams,
}
use ceoma_api.Store.{Store, Lot, lot_row, AuthContext, StockAdjustment, with_transaction}
use ceoma_api.DbHelpers.{lot_status}
use ceoma_api.DbHelpers.Laws.{refresh_lot_status_found, with_status, open_allocations}
use ceoma_api.Books.{IsSound, LotIsSound, IsBalanced, LotIsBalanced}
use ceoma_api.Books.Updates.{with_status-IsSound, with_status-IsBalanced}
use ceoma_api.Inventory.{
  StockAdjustmentInput, new_adjustment, set_weights, adjust_lot, adjust_stock,
}

-- A weight that is cut off at zero.
after_nonneg : (x : ℤ) → minus_epsilon ≤ℤ max_ℤ x (pos 0)
after_nonneg x = ground arith

max_ℤ_grams : (x : ℤ) → IsGrams x → ltb_ℤ x minus_epsilon ≡ false → max_ℤ x (pos 0) ≡ x
max_ℤ_grams x g h = ground arith

after_mono : (x y d : ℤ) → x ≤ℤ y → max_ℤ (x +ℤ d) (pos 0) ≤ℤ max_ℤ (y +ℤ d) (pos 0)
after_mono x y d h = ground (arith, +ℤ_parts x d, +ℤ_parts y d)

module _ (adjustment_id : ℕ) (input : StockAdjustmentInput) (actor : AuthContext) (s : Store)
    (l : Lot) where
  abbrev pub total_after : ℤ
  total_after = max_ℤ (l.weight_total_kg +ℤ input.adjustment_kg) (pos 0)

  abbrev pub available_after : ℤ
  available_after = max_ℤ (l.weight_available_kg +ℤ input.adjustment_kg) (pos 0)

  -- The store after the lot's weights are written.
  abbrev pub weighed : Store
  weighed = set_weights input.lot_id actor.organization_id total_after available_after s

  abbrev pub rewritten : Lot → Lot
  rewritten x = record x {
    weight_total_kg = numeric_3 total_after;
    weight_available_kg = numeric_3 available_after;
  }

  -- The store after the lot's status is refreshed.
  abbrev pub refreshed : Store
  refreshed =
      with_status input.lot_id actor.organization_id
        (lot_status (numeric_3 available_after) (open_allocations input.lot_id s)) weighed

  abbrev pub adjusted : Store
  adjusted = record refreshed {
    stock_adjustments = new_adjustment adjustment_id input actor ∷ s.stock_adjustments;
  }

  abbrev pub is_negative : Bool
  is_negative =
      ltb_ℤ (l.weight_total_kg +ℤ input.adjustment_kg) minus_epsilon
      || ltb_ℤ (l.weight_available_kg +ℤ input.adjustment_kg) minus_epsilon

  abbrev pub is_repeated : Bool
  is_repeated = any (λ a. a.id == adjustment_id) s.stock_adjustments

  -- Every outcome of the adjustment of a lot that is found.
  adjust_lot_lem :
      find (owned input.lot_id actor.organization_id) s.lots ≡ some l
      → adjust_lot adjustment_id input actor l s ≡ (
          if is_negative
          then (err (api_error 409 (text "Adjustment would make lot quantity negative")), s)
          else if is_repeated
          then (err (pg_error "23505"), refreshed)
          else (ok (new_adjustment adjustment_id input actor, l.lot_code), adjusted))
  unfolding adjust_lot
  adjust_lot_lem found = elim (Bool-cases is_negative) [
    | inl neg ↦ rw neg refl
    | inr fine ↦
        rw
          (
            fine,
            refresh_lot_status_found input.lot_id actor.organization_id weighed
                (find-update _ rewritten s.lots (λ r. refl) found),
          )
          (elim (Bool-cases is_repeated) [ inl old ↦ rw old | inr new ↦ rw new ])
  ]

  module _ (found : find (owned input.lot_id actor.organization_id) s.lots ≡ some l)
      (h : IsSound s) where
    adjusted-IsSound : IsSound adjusted
    adjusted-IsSound =
        let old : LotIsSound l = (find-All _ LotIsSound s.lots found h.lots).1 in
        let kept : IsSound weighed = record {
          lot_keys =
              Unique-update input.lot_id actor.organization_id rewritten s.lots (λ r. refl)
                h.lot_keys;
          contract_keys = h.contract_keys;
          allocation_keys = h.allocation_keys;
          lots =
              update-All_found LotIsSound input.lot_id actor.organization_id rewritten s.lots
                h.lot_keys found h.lots
                (
                  numeric_3-IsGrams total_after,
                  numeric_3-IsGrams available_after,
                  numeric_3_nonneg available_after
                      (after_nonneg (l.weight_available_kg +ℤ input.adjustment_kg)),
                  numeric_3_mono available_after total_after (
                      after_mono l.weight_available_kg l.weight_total_kg input.adjustment_kg old.3),
                );
          contracts = h.contracts;
          allocations = h.allocations;
        } in
        let marked : IsSound refreshed =
          with_status-IsSound input.lot_id actor.organization_id _ kept in
        record {
          lot_keys = marked.lot_keys;
          contract_keys = h.contract_keys;
          allocation_keys = h.allocation_keys;
          lots = marked.lots;
          contracts = h.contracts;
          allocations = h.allocations;
        }

    -- A whole number of grams that passes the guard is stored as it is.
    stored_exact :
        (w : ℤ)
        → IsGrams w
        → IsGrams input.adjustment_kg
        → ltb_ℤ (w +ℤ input.adjustment_kg) minus_epsilon ≡ false
        → numeric_3 (max_ℤ (w +ℤ input.adjustment_kg) (pos 0)) ≡ w +ℤ input.adjustment_kg
    stored_exact w g k fine =
        let sum : IsGrams (w +ℤ input.adjustment_kg) = +ℤ-IsGrams w input.adjustment_kg g k in
        rw (max_ℤ_grams (w +ℤ input.adjustment_kg) sum fine)
          (numeric_3_exact (w +ℤ input.adjustment_kg) sum)

    adjusted-IsBalanced :
        IsBalanced s → IsGrams input.adjustment_kg → is_negative ≡ false → IsBalanced adjusted
    adjusted-IsBalanced b g fine =
        let old : LotIsSound l = (find-All _ LotIsSound s.lots found h.lots).1 in
        let even : LotIsBalanced s.allocations l =
          (find-All _ (LotIsBalanced s.allocations) s.lots found b.lots).1 in
        let (total_fine, available_fine) = ||-eq-false _ _ fine in
        let kept : IsBalanced weighed = record {
          lots =
              update-All_found (LotIsBalanced s.allocations) input.lot_id actor.organization_id
                rewritten s.lots h.lot_keys found b.lots
                (rw
                  (
                    stored_exact l.weight_total_kg old.0 g total_fine,
                    stored_exact l.weight_available_kg old.1 g available_fine,
                    even,
                  )
                  (omega int_laws));
          contracts = b.contracts;
        } in
        let marked : IsBalanced refreshed =
          with_status-IsBalanced input.lot_id actor.organization_id _ kept in
        record { lots = marked.lots; contracts = b.contracts }

module _ (adjustment_id : ℕ) (input : StockAdjustmentInput) (actor : AuthContext) (s : Store) where
  -- What the transaction does, by what its first query returns.
  abbrev pub adjust_outcome : Option Lot → Result (StockAdjustment × String) × Store
  adjust_outcome none = (err (api_error 404 (not_found "Lot" input.lot_id)), s)
  adjust_outcome (some l) =
      if is_negative adjustment_id input actor s l
      then (err (api_error 409 (text "Adjustment would make lot quantity negative")), s)
      else if is_repeated adjustment_id input actor s l
      then (err (pg_error "23505"), s)
      else (
        ok (new_adjustment adjustment_id input actor, l.lot_code),
        adjusted adjustment_id input actor s l,
      )

  abbrev pub adjusted_lot : Option Lot
  adjusted_lot = find (owned input.lot_id actor.organization_id) s.lots

  -- The adjustment is refused, with nothing written, if the organization has no such lot
  -- (404), if the total or the available weight would fall below zero by more than the
  -- tolerance (409), and if its identifier is taken. Otherwise both weights are rewritten, the
  -- lot's status is that of its new weight and its open allocations, the adjustment is
  -- recorded, and nothing else changes.
  pub adjust_stock_lem : adjust_stock adjustment_id input actor s ≡ adjust_outcome adjusted_lot
  unfolding adjust_stock with_transaction
  adjust_stock_lem = elim (Option-cases adjusted_lot) [
    | inl missing ↦ rw missing refl
    | inr (l, found) ↦
        rw (found, adjust_lot_lem adjustment_id input actor s l found)
          (elim (Bool-cases (is_negative adjustment_id input actor s l)) [
            | inl neg ↦ rw neg
            | inr fine ↦ rw fine (elim (Bool-cases (is_repeated adjustment_id input actor s l)) [
              | inl old ↦ rw old
              | inr new ↦ rw new
            ])
          ])
  ]

  -- What holds before an adjustment, and after each one that passes its guard, holds after it.
  pub adjust_stock_keeps :
      (P : Store → Type 0)
      → P s
      → ((l : Lot)
          → adjusted_lot ≡ some l
          → is_negative adjustment_id input actor s l ≡ false
          → P (adjusted adjustment_id input actor s l))
      → P (adjust_stock adjustment_id input actor s).1
  adjust_stock_keeps P before after = rw adjust_stock_lem (elim (Option-cases adjusted_lot) [
    | inl missing ↦ rw missing before
    | inr (l, found) ↦ rw found (ground (arith, before, after l found))
  ])

  -- Whatever the outcome of an adjustment of sound books, weights stay in whole grams, none is
  -- below zero and none available beyond the total; contracts and allocations stay sound.
  pub adjust_stock-IsSound : IsSound s → IsSound (adjust_stock adjustment_id input actor s).1
  adjust_stock-IsSound h =
      adjust_stock_keeps IsSound h
        (λ l found fine. adjusted-IsSound adjustment_id input actor s l found h)

  -- An adjustment of sound and balanced books by whole grams keeps every lot's total equal to
  -- what is available of it plus what is allocated from it, and every contract's totals equal
  -- to the sums over its allocations.
  pub adjust_stock-IsBalanced :
      IsSound s
      → IsGrams input.adjustment_kg
      → IsBalanced s
      → IsBalanced (adjust_stock adjustment_id input actor s).1
  adjust_stock-IsBalanced h g b =
      adjust_stock_keeps IsBalanced b
        (λ l found fine. adjusted-IsBalanced adjustment_id input actor s l found h b g fine)
