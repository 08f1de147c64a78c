-- ===== src/Documents.antt =====
-- The export documents of a shipment (`generateDocuments` and `listDocuments` of
-- src/modules/shipments/shipments.service.ts). A quantity is in millionths, a product of two in
-- millionths of a millionth; `divide` is the quotient of two amounts as a JavaScript number.
pub mod Weights
pub mod Writing
pub mod Outcomes
pub mod Trace
pub mod Traced
pub mod Listing
use mathlib.Core.Option
use ceoma_api.Prelude.{
  ℕ, suc, ◌+◌, ◌/◌, ℤ, pos, negsuc, sub_ℕ, ◌+ℤ◌, ◌*ℤ◌, ltb_ℤ, Bool, ◌&&◌, Option, none, some, List,
  [], ◌∷◌, ◌++◌, map, String, leb, ◌==◌, if◌then◌else◌, any,
}
use ceoma_api.Errors.{Failure, Result, ok, err, api_error, other_error, text, not_found}
use ceoma_api.Quantity.{nearest, numeric_2, numeric_3}
use ceoma_api.Sql.{owned, find, select, sum_where}
use ceoma_api.Store.{
  Store, AuthContext, DocumentType, Shipment, Contract, Reference, Allocation, Lot, Snapshot,
  shipment_row, contract_row, reference_row, lot_row, Tx, ◌>>=◌, ◌>>◌, pure, gets, lift, or_throw,
  throw_if, insert_unless, with_transaction,
}

pub record Invoice : Type 0 where
  pub shipment_number : String
  pub contract_number : String
  pub buyer : String
  pub currency : String
  pub price_per_kg : ℤ
  pub total_weight_kg : ℤ
  pub invoice_value : ℤ

pub record PackedItem : Type 0 where
  pub allocation_id : ℕ
  pub lot_id : ℕ
  pub weight_kg : ℤ

pub record CostSummary : Type 0 where
  pub shipment_number : String
  pub lot_cost : ℤ
  pub shipment_cost : ℤ
  pub total_cost : ℤ

pub data Payload : Type 0 where
  invoice : Invoice → Payload
  packing_list : (shipment_number : String) → List PackedItem → Payload
  traceability : Option Snapshot → Payload
  cost_summary : CostSummary → Payload

pub record ShipmentDocument : Type 0 where
  pub id : ℕ
  pub organization_id : ℕ
  pub shipment_id : ℕ
  pub document_type : DocumentType
  pub payload : Payload

pub record Archive : Type 0 where
  pub store : Store
  pub documents : List ShipmentDocument

-- `toFixed(2)` of so many millionths of a millionth
unfoldable pub fixed_product : ℤ → ℤ
fixed_product (pos n) = pos (nearest 10000000000 n / 1000000)
fixed_product (negsuc n) = sub_ℕ 0 (nearest 10000000000 (suc n) / 1000000)

-- `ORDER BY id`
module _ {R : Type 0} (id_of : R → ℕ) where
  unfoldable pub add_by_id : R → List R → List R
  add_by_id r [] = r ∷ []
  add_by_id r (x ∷ xs) = if leb (id_of r) (id_of x) then r ∷ x ∷ xs else x ∷ add_by_id r xs

  unfoldable pub sort_by_id : List R → List R
  unfolding add_by_id
  sort_by_id [] = []
  sort_by_id (x ∷ xs) = add_by_id x (sort_by_id xs)

abbrev pub is_shipped_by : (shipment_id org : ℕ) → Allocation → Bool
is_shipped_by shipment_id org a =
    elim a.shipment_id [ none ↦ Bool.false | some id ↦ id == shipment_id ]
    && a.organization_id == org

-- `allocations.reduce((sum, alloc) => sum + alloc.allocated_kg, sum)`
unfoldable pub total_weight : ℤ → List Allocation → ℤ
total_weight sum [] = sum
total_weight sum (a ∷ rest) = total_weight (sum +ℤ a.allocated_kg) rest

abbrev pub packed : Allocation → PackedItem
packed a = record { allocation_id = a.id; lot_id = a.lot_id; weight_kg = a.allocated_kg }

-- The allocations of a shipment, as the statement reads them
unfoldable pub shipped_allocations : (shipment_id org : ℕ) → Store → List Allocation
unfolding sort_by_id
shipped_allocations shipment_id org s =
    sort_by_id (λ a. a.id) (select (is_shipped_by shipment_id org) s.allocations)

-- `rowCount === 0`
unfoldable pub has_no_rows : List Allocation → Bool
has_no_rows [] = Bool.true
has_no_rows (a ∷ rest) = Bool.false

unfoldable pub invoice_of : Shipment → Contract → Reference → List Allocation → Invoice
unfolding total_weight
invoice_of shipment contract buyer allocations =
    let weight = total_weight (pos 0) allocations in
    record {
      shipment_number = shipment.shipment_number;
      contract_number = contract.contract_number;
      buyer = buyer.name;
      currency = contract.currency;
      price_per_kg = contract.price_per_kg;
      total_weight_kg = numeric_3 weight;
      invoice_value = fixed_product (weight *ℤ contract.price_per_kg);
    }

module _ (divide : ℤ → ℤ → ℤ) where
  -- What one allocation has cost, given its lot
  abbrev pub allocation_cost : Allocation → Lot → ℤ
  allocation_cost a l =
      let additional_per_kg =
        if ltb_ℤ (pos 0) l.weight_total_kg
        then divide (l.auction_fees_total +ℤ l.additional_cost_total) l.weight_total_kg
        else pos 0 in
      a.allocated_kg *ℤ (l.purchase_price_per_kg +ℤ additional_per_kg)

  -- The loop over the join of the allocations with their lots
  unfoldable pub lot_costs : (shipment_id org : ℕ) → List Lot → ℤ → List Allocation → ℤ
  lot_costs shipment_id org lots total [] = total
  lot_costs shipment_id org lots total (a ∷ rest) =
      lot_costs shipment_id org lots
        (if is_shipped_by shipment_id org a
          then elim (find (λ l. l.id == a.lot_id) lots) [
            | none ↦ total
            | some l ↦ total +ℤ allocation_cost a l
          ]
          else total)
        rest

  unfoldable pub costs_of : Shipment → (shipment_id org : ℕ) → Store → CostSummary
  unfolding lot_costs fixed_product
  costs_of shipment shipment_id org s =
      let lots = lot_costs shipment_id org s.lots (pos 0) s.allocations in
      let entries =
        sum_where
          (λ c.
            elim c.shipment_id [ none ↦ Bool.false | some id ↦ id == shipment_id ]
            && c.organization_id == org)
          (λ c. c.amount) s.cost_entries in
      record {
        shipment_number = shipment.shipment_number;
        lot_cost = fixed_product lots;
        shipment_cost = numeric_2 entries;
        total_cost = fixed_product (lots +ℤ entries *ℤ pos 1000000);
      }

  -- Only the invoice reads the buyer, who may be missing.
  unfoldable pub payload_of :
      Shipment
      → Contract
      → Option Reference
      → List Allocation
      → ℕ
      → Store
      → DocumentType
      → Result Payload
  payload_of shipment contract buyer allocations org s DocumentType.commercial_invoice =
      elim buyer [
        | none ↦ err other_error
        | some b ↦ ok (invoice (invoice_of shipment contract b allocations))
      ]
  payload_of shipment contract buyer allocations org s DocumentType.packing_list =
      ok (packing_list shipment.shipment_number (map packed allocations))
  payload_of shipment contract buyer allocations org s DocumentType.traceability_report =
      ok (traceability shipment.traceability_snapshot)
  payload_of shipment contract buyer allocations org s DocumentType.cost_breakdown_summary =
      ok (cost_summary (costs_of shipment shipment.id org s))

abbrev pub insert_document : ShipmentDocument → Tx Archive (Unit {0})
insert_document d =
    insert_unless (λ a. any (λ x. x.id == d.id) a.documents)
      (λ a. record a { documents = d ∷ a.documents })

abbrev pub new_document : (id org shipment_id : ℕ) → DocumentType → Payload → ShipmentDocument
new_document id org shipment_id t p = record {
  id = id;
  organization_id = org;
  shipment_id = shipment_id;
  document_type = t;
  payload = p;
}

-- The loop over the requested types; the numbers are the UUIDs that are drawn.
unfoldable pub write_documents :
    (DocumentType → Result Payload)
    → (org shipment_id : ℕ) → (ℕ → ℕ)
    → ℕ
    → List DocumentType
    → Tx Archive (List ShipmentDocument)
write_documents payload org shipment_id new_id n [] = pure []
write_documents payload org shipment_id new_id n (t ∷ types) = do
  p ← lift (payload t)
  let d = new_document (new_id n) org shipment_id t p
  insert_document d
  rest ← write_documents payload org shipment_id new_id (suc n) types
  pure (d ∷ rest)

module _ (divide : ℤ → ℤ → ℤ) where
  unfoldable pub generate_documents :
      (ℕ → ℕ) → ℕ → List DocumentType → AuthContext → Tx Archive (List ShipmentDocument)
  generate_documents new_id shipment_id doc_types actor = with_transaction (do
    let org = actor.organization_id
    found ← gets (λ a. find (owned shipment_id org) a.store.shipments)
    shipment ← or_throw found (api_error 404 (not_found "Shipment" shipment_id))
    contract_row ← gets (λ a. find (owned shipment.contract_id org) a.store.contracts)
    contract ← or_throw contract_row other_error
    buyer ← gets (λ a. find (owned contract.buyer_id org) a.store.buyers)
    allocations ← gets (λ a. shipped_allocations shipment_id org a.store)
    throw_if (has_no_rows allocations)
        (api_error 409 (text "No shipped allocations found for this shipment"))
    s ← gets (λ a. a.store)
    documents ←
        write_documents (payload_of divide shipment contract buyer allocations org s) org
          shipment_id new_id 0 doc_types
    named ← or_throw buyer other_error
    pure documents)
