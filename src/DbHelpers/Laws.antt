-- ===== src/DbHelpers/Laws.antt =====
-- What the helpers of src/common/dbHelpers.ts guarantee to the services that call them.
use ceoma_api.Prelude.{
  ℕ, ◌≡◌, refl, ◌↔◌, ◌≤◌, ◌<◌, ℤ, ◌≤ℤ◌, ◌<ℤ◌, Bool, true, false, ◌&&◌, Option, none, some, String,
  arith, ◌==◌, if◌then◌else◌,
}
use ceoma_api.Errors.{api_error, not_found, ok, err}
use ceoma_api.Sql.{owned, find, update, count}
use ceoma_api.Quantity.{epsilon}
use ceoma_api.Store.{
  Store, Lot, ContractStatus, LotStatus, open_for_allocation, partially_fulfilled, fulfilled,
  closed, is_allocated, lot_row,
}
use ceoma_api.DbHelpers.{
  next_contract_status, lot_status, refresh_lot_status, ensure_reference, is_safe_identifier,
  table_has,
}

abbrev pub fulfilment : ContractStatus → ℕ
fulfilment open_for_allocation = 0
fulfilment partially_fulfilled = 1
fulfilment fulfilled = 2
fulfilment closed = 3

-- As the shipped weight grows the status of a contract never falls back; a closed contract stays
-- closed, and no other contract becomes closed.
pub next_contract_status_mono :
    (shipped more quantity : ℤ) (current : ContractStatus)
    → shipped ≤ℤ more
    → (fulfilment (next_contract_status shipped quantity current)
        ≤ fulfilment
            (next_contract_status more quantity (next_contract_status shipped quantity current)))
      × ((next_contract_status shipped quantity current ≡ closed) ↔ (current ≡ closed))
unfolding next_contract_status
next_contract_status_mono shipped more quantity open_for_allocation h = (ground arith, ground arith)
next_contract_status_mono shipped more quantity partially_fulfilled h = (ground arith, ground arith)
next_contract_status_mono shipped more quantity fulfilled h = (ground arith, ground arith)
next_contract_status_mono shipped more quantity closed h = (ground arith, ground arith)

-- On a table that exists, under a safe name, a reference is accepted exactly when the row is
-- there, and refused by 404 otherwise; nothing is written either way.
pub ensure_reference_lem :
    (table : String) (id : ℕ) (label : String) (org : Option ℕ) (s : Store) (present : Bool)
    → is_safe_identifier table ≡ true
    → table_has table id org s ≡ some present
    → ensure_reference table id label org s
      ≡ ((if present then ok tt else err (api_error 404 (not_found label id))), s)
unfolding ensure_reference
ensure_reference_lem table id label org s true safe e = rw (safe, e) refl
ensure_reference_lem table id label org s false safe e = rw (safe, e) refl

-- Whatever the outcome, checking a reference writes nothing.
pub ensure_reference_pure :
    (table : String) (id : ℕ) (label : String) (org : Option ℕ) (s : Store)
    → (ensure_reference table id label org s).1 ≡ s
unfolding ensure_reference
ensure_reference_pure table id label org s = ground arith

abbrev pub open_allocations : ℕ → Store → ℕ
open_allocations lot_id s = count (λ a. a.lot_id == lot_id && is_allocated a) s.allocations

abbrev pub with_status : ℕ → ℕ → LotStatus → Store → Store
with_status lot_id org status s = record s {
  lots = update (owned lot_id org) (λ l. record l { status = status }) s.lots;
}

-- On a lot of the organization the refresh succeeds and writes its status, and nothing else.
pub refresh_lot_status_found :
    (lot_id org : ℕ) (s : Store) {l : Lot}
    → find (owned lot_id org) s.lots ≡ some l
    → refresh_lot_status lot_id (some org) s ≡ (
      ok tt,
      with_status lot_id org (lot_status l.weight_available_kg (open_allocations lot_id s)) s,
    )
unfolding refresh_lot_status
refresh_lot_status_found lot_id org s e = ground arith

-- On any other lot it fails by 404 and writes nothing.
pub refresh_lot_status_missing :
    (lot_id org : ℕ) (s : Store)
    → find (owned lot_id org) s.lots ≡ none
    → refresh_lot_status lot_id (some org) s ≡ (err (api_error 404 (not_found "Lot" lot_id)), s)
unfolding refresh_lot_status
refresh_lot_status_missing lot_id org s e = ground arith

-- A lot with open allocations is allocated; one without is in stock as long as more than the
-- tolerance is left of it, and shipped once it is used up.
pub lot_status_iff :
    (available : ℤ) (n : ℕ)
    → ((lot_status available n ≡ LotStatus.allocated) ↔ (0 < n))
      × ((lot_status available n ≡ LotStatus.in_stock) ↔ ((n ≡ 0) × (epsilon <ℤ available)))
      × ((lot_status available n ≡ LotStatus.shipped) ↔ ((n ≡ 0) × (available ≤ℤ epsilon)))
unfolding lot_status
lot_status_iff available n = (ground arith, ground arith, ground arith)
