-- ===== src/DbHelpers.antt =====
-- src/common/dbHelpers.ts: the contract status after a shipment, references checked before an
-- insert, the lot status after a change of stock, and the order of the shipment statuses.
pub mod Laws
use Prim.Native.Char.{Char, code}
use ceoma_api.Prelude.{
  ℕ, ℤ, ◌-ℤ◌, ltb_ℤ, leb_ℤ, pos, Bool, true, false, not, ◌&&◌, ◌||◌, Option, none, some, List, [],
  ◌∷◌, map, String, ltb, leb, ◌==◌, str_eq, if◌then◌else◌, any,
}
use ceoma_api.Errors.{api_error, pg_error, not_found, about, about_field, ok, err}
use ceoma_api.Sql.{Row, owned, find, update, count}
use ceoma_api.Quantity.{epsilon}
use ceoma_api.Store.{
  Store, ContractStatus, LotStatus, ShipmentStatus, is_closed, is_allocated, Tx, ◌>>=◌, ◌>>◌, gets,
  or_throw, reference_row, lot_row, shipment_row, throw_if, modify, closed, fulfilled,
  partially_fulfilled, open_for_allocation,
}

-- `SHIPMENT_PROGRESSION.indexOf`
abbrev pub progression_index : ShipmentStatus → ℕ
progression_index ShipmentStatus.planned = 0
progression_index ShipmentStatus.stuffed = 1
progression_index ShipmentStatus.cleared = 2
progression_index ShipmentStatus.on_vessel = 3
progression_index ShipmentStatus.completed = 4

-- `nextContractStatus`
unfoldable pub next_contract_status : (shipped_kg quantity_kg : ℤ) → ContractStatus → ContractStatus
next_contract_status shipped_kg quantity_kg current =
    if is_closed current
    then current
    else if leb_ℤ (quantity_kg -ℤ epsilon) shipped_kg
    then fulfilled
    else if ltb_ℤ epsilon shipped_kg
    then partially_fulfilled
    else open_for_allocation

-- `/^[a-z_]+$/`
abbrev is_name_char : Char → Bool
is_name_char c = (leb b'a' (code c) && leb (code c) b'z') || code c == b'_'

abbrev name_chars : String → Bool
name_chars String.[] = true
name_chars (String.◌∷◌ c s) = is_name_char c && name_chars s

abbrev pub is_safe_identifier : String → Bool
is_safe_identifier String.[] = false
is_safe_identifier (String.◌∷◌ c s) = is_name_char c && name_chars s

-- The condition `id = $1`, with `AND organization_id = $2` if there is an organization.
abbrev pub in_scope : {R : Type 0} ⦃k : Row R⦄ → ℕ → Option ℕ → R → Bool
in_scope ⦃k⦄ id none r = k.id_of r == id
in_scope ⦃k⦄ id (some org) r = owned id org r

abbrev pub has_row : {R : Type 0} ⦃k : Row R⦄ → ℕ → Option ℕ → List R → Bool
has_row id org rs = any (in_scope id org) rs

-- Whether the named table has such a row; `none` if there is no such table. The tables are those
-- that callers name.
unfoldable pub table_has : String → ℕ → Option ℕ → Store → Option Bool
table_has table id org s =
    if str_eq table "buyers"
    then some (has_row id org s.buyers)
    else if str_eq table "grades"
    then some (has_row id org s.grades)
    else if str_eq table "warehouses"
    then some (has_row id org s.warehouses)
    else if str_eq table "bag_types"
    then some (has_row id org s.bag_types)
    else if str_eq table "lots"
    then some (has_row id org s.lots)
    else if str_eq table "shipments"
    then some (has_row id org s.shipments)
    else none

-- `ensureReference`
unfoldable pub ensure_reference : String → ℕ → String → Option ℕ → Tx Store (Unit {0})
unfolding table_has
ensure_reference table id label org = do
  throw_if (not (is_safe_identifier table))
      (api_error 500 (about_field "Unsafe SQL identifier for table" table))
  present ← or_throw (← gets (table_has table id org)) (pg_error "42P01")
  throw_if (not present) (api_error 404 (not_found label id))

-- The status that `refreshLotStatus` computes.
unfoldable pub lot_status : (weight_available : ℤ) (open_allocation_count : ℕ) → LotStatus
lot_status weight_available open_allocation_count =
    if leb_ℤ weight_available epsilon
    then (if ltb 0 open_allocation_count then LotStatus.allocated else LotStatus.shipped)
    else if ltb 0 open_allocation_count
    then LotStatus.allocated
    else LotStatus.in_stock

-- `refreshLotStatus`
unfoldable pub refresh_lot_status : ℕ → Option ℕ → Tx Store (Unit {0})
unfolding lot_status find update count
refresh_lot_status lot_id org = do
  lot ←
      or_throw (← gets (λ s. find (in_scope lot_id org) s.lots))
        (api_error 404 (not_found "Lot" lot_id))
  open_count ← gets (λ s. count (λ a. a.lot_id == lot_id && is_allocated a) s.allocations)
  let status = lot_status lot.weight_available_kg open_count
  modify (λ s. record s {
    lots = update (in_scope lot_id org) (λ l. record l { status = status }) s.lots;
  })
