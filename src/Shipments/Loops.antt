-- ===== src/Shipments/Loops.antt =====
-- The loops of `createShipment`: checking the allocations, the join with their lots, the refresh of
-- the lots that are touched.
use ceoma_api.Prelude.{
  ℕ, ℤ, ◌+ℤ◌, not, Option, none, some, List, [], ◌∷◌, String, leb, ◌==◌, str_eq, if◌then◌else◌,
}
use ceoma_api.Errors.{Result, ok, err, api_error, about}
use ceoma_api.Sql.{find}
use ceoma_api.Store.{Store, Lot, Allocation, SnapshotLot, is_allocated, Tx, ◌>>◌, pure}
use ceoma_api.DbHelpers.{refresh_lot_status}

-- `COALESCE`
abbrev pub coalesce {ℓ} : {A : Type ℓ} → Option A → Option A → Option A
coalesce none b = b
coalesce (some a) b = some a

-- The loop that checks every allocation and adds up `shipmentKg`
unfoldable pub check_allocations : (contract_id : ℕ) → ℤ → List Allocation → Result ℤ
check_allocations contract_id shipment_kg [] = ok shipment_kg
check_allocations contract_id shipment_kg (a ∷ rows) =
    if not (a.contract_id == contract_id)
    then err (api_error 409 (about "Allocation belongs to another contract" a.id))
    else if not (is_allocated a)
    then err (api_error 409 (about "Allocation is not available for shipment" a.id))
    else check_allocations contract_id (shipment_kg +ℤ a.allocated_kg) rows

-- `ORDER BY a.id`
unfoldable pub insert_by_id : Allocation → List Allocation → List Allocation
insert_by_id a [] = a ∷ []
insert_by_id a (b ∷ rows) = if leb a.id b.id then a ∷ b ∷ rows else b ∷ insert_by_id a rows

unfoldable pub order_by_id : List Allocation → List Allocation
unfolding insert_by_id
order_by_id [] = []
order_by_id (a ∷ rows) = insert_by_id a (order_by_id rows)

abbrev pub snapshot_row : Allocation → Lot → SnapshotLot
snapshot_row a l = record {
  allocation_id = a.id;
  lot_id = l.id;
  lot_code = l.lot_code;
  source = l.source;
  supplier_id = l.supplier_id;
  grade_id = l.grade_id;
  allocated_kg = a.allocated_kg;
}

-- `JOIN lots l ON l.id = a.lot_id`
unfoldable pub join_lots : List Lot → List Allocation → List SnapshotLot
unfolding find
join_lots lots [] = []
join_lots lots (a ∷ rows) = elim (find (λ l. l.id == a.lot_id) lots) [
  | none ↦ join_lots lots rows
  | some l ↦ snapshot_row a l ∷ join_lots lots rows
]

-- `refreshLotStatus` on every lot that is touched
unfoldable pub refresh_all : (org : ℕ) → List ℕ → Tx Store (Unit {0})
refresh_all org [] = pure tt
refresh_all org (lot_id ∷ ids) = refresh_lot_status lot_id (some org) >> refresh_all org ids

-- `.filter((value) => value.length > 0)`
abbrev pub non_empty : List String → List String
non_empty [] = []
non_empty (c ∷ codes) = if str_eq c "" then non_empty codes else c ∷ non_empty codes
