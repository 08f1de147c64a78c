-- ===== src/Documents/Trace.antt =====
-- The trace of a lot (src/modules/traceability/traceability.service.ts): how it was bought, its
-- allocations, the shipments that carry them, and their documents.
use mathlib.Core.Option
use ceoma_api.Prelude.{
  ℕ, ℤ, ◌&&◌, Option, none, some, List, [], ◌∷◌, String, ◌==◌, any, distinct, or_default,
}
use ceoma_api.Errors.{Result, ok, err, api_error, not_found}
use ceoma_api.Sql.{owned, find, select}
use ceoma_api.Store.{
  Store, AuthContext, Lot, LotSource, Allocation, Shipment, AuctionProcurement, DirectDelivery,
  DirectAgreement, lot_row, agreement_row, shipment_row,
}
use ceoma_api.Documents.{ShipmentDocument, Archive, sort_by_id}

pub record Quality : Type 0 where
  pub moisture_percent : Option ℤ
  pub screen_size : Option ℤ
  pub defects_percent : Option ℤ

pub data Purchase : Type 0 where
  at_auction :
      (auction_lot_number : String) (marketing_agent_id : ℕ) (catalog_document_path : Option String)
      → Purchase
  direct :
      (agreement_id : Option ℕ) (agreement_reference : Option String) (delivery_reference : String)
      → Quality
      → Purchase

pub record Trace : Type 0 where
  pub lot : Lot
  pub procurement : Purchase
  pub allocations : List Allocation
  pub shipments : List Shipment
  pub documents : List ShipmentDocument

-- The record of the auction, or what the lot itself says
unfoldable pub auction_purchase : Lot → Option AuctionProcurement → Purchase
auction_purchase lot none = at_auction lot.source_reference lot.supplier_id none
auction_purchase lot (some p) =
    at_auction p.auction_lot_number p.marketing_agent_id p.catalog_document_path

abbrev pub quality_of : Option DirectDelivery → Quality
quality_of d = record {
  moisture_percent = Option.map (λ x. x.moisture_percent) d;
  screen_size = Option.map (λ x. x.screen_size) d;
  defects_percent = Option.map (λ x. x.defects_percent) d;
}

unfoldable pub direct_purchase : Lot → Option DirectDelivery → Option DirectAgreement → Purchase
direct_purchase lot d agreement =
    direct (Option.map (λ x. x.id) agreement) (Option.map (λ x. x.agreement_reference) agreement)
      (or_default (Option.map (λ x. x.delivery_reference) d) lot.source_reference) (quality_of d)

unfoldable pub procurement_of : Lot → (lot_id org : ℕ) → Store → Purchase
unfolding auction_purchase direct_purchase
procurement_of lot lot_id org s = elim lot.source [
  | LotSource.auction ↦
      auction_purchase lot
        (find (λ p. p.lot_id == lot_id && p.organization_id == org) s.auction_procurements)
  | LotSource.direct ↦
      let delivery =
        find (λ d. d.lot_id == lot_id && d.organization_id == org) s.direct_deliveries in
      direct_purchase lot delivery (elim delivery [
        | none ↦ none
        | some d ↦ find (owned d.agreement_id org) s.direct_agreements
      ])
]

-- `Array.from(new Set(...))` of the shipments that are named
unfoldable pub shipment_ids : List Allocation → List ℕ
shipment_ids [] = []
shipment_ids (a ∷ rest) =
    let ids = shipment_ids rest in elim a.shipment_id [ none ↦ ids | some id ↦ id ∷ ids ]

abbrev pub lot_allocations : (lot_id org : ℕ) → Store → List Allocation
lot_allocations lot_id org s =
    sort_by_id (λ a. a.id)
      (select (λ a. a.lot_id == lot_id && a.organization_id == org) s.allocations)

-- Without shipments the two statements are left out.
unfoldable pub shipments_of : List ℕ → ℕ → Store → List Shipment
shipments_of [] org s = []
shipments_of (i ∷ is) org s =
    sort_by_id (λ x. x.id)
      (select (λ x. any (λ id. x.id == id) (i ∷ is) && x.organization_id == org) s.shipments)

unfoldable pub documents_of : List ℕ → ℕ → Archive → List ShipmentDocument
documents_of [] org a = []
documents_of (i ∷ is) org a =
    sort_by_id (λ x. x.id)
      (select (λ x. any (λ id. x.shipment_id == id) (i ∷ is) && x.organization_id == org)
        a.documents)

unfoldable pub get_lot_traceability : ℕ → AuthContext → Archive → Result Trace
get_lot_traceability lot_id actor a =
    elim (find (owned lot_id actor.organization_id) a.store.lots) [
      | none ↦ err (api_error 404 (not_found "Lot" lot_id))
      | some lot ↦
          let allocations = lot_allocations lot_id actor.organization_id a.store in
          let ids = distinct ◌==◌ (shipment_ids allocations) in
          ok (record {
            lot = lot;
            procurement = procurement_of lot lot_id actor.organization_id a.store;
            allocations = allocations;
            shipments = shipments_of ids actor.organization_id a.store;
            documents = documents_of ids actor.organization_id a;
          })
    ]
