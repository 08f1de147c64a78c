-- ===== src/Documents/Listing.antt =====
-- The listing of a shipment's documents (`listDocuments` of src/modules/shipments/shipments.service.ts).
use ceoma_api.Prelude.{
  ℕ, Bool, true, false, ◌&&◌, Option, none, some, List, String, ◌==◌, str_eq, if◌then◌else◌,
}
use ceoma_api.Errors.{Result, ok, err, pg_error}
use ceoma_api.Store.{AuthContext, DocumentType}
use ceoma_api.Pagination.{ListQuery, SortOrder, Page}
use ceoma_api.Pagination.Pages.{list_rows}
use ceoma_api.Master.Lists.{filter_of}
use ceoma_api.Documents.{ShipmentDocument, Archive}

abbrev pub same_type : DocumentType → DocumentType → Bool
same_type DocumentType.commercial_invoice DocumentType.commercial_invoice = true
same_type DocumentType.packing_list DocumentType.packing_list = true
same_type DocumentType.traceability_report DocumentType.traceability_report = true
same_type DocumentType.cost_breakdown_summary DocumentType.cost_breakdown_summary = true
same_type _ _ = false

abbrev pub document_type_of : String → Option DocumentType
document_type_of t =
    if str_eq t "commercial_invoice"
    then some DocumentType.commercial_invoice
    else if str_eq t "packing_list"
    then some DocumentType.packing_list
    else if str_eq t "traceability_report"
    then some DocumentType.traceability_report
    else if str_eq t "cost_breakdown_summary"
    then some DocumentType.cost_breakdown_summary
    else none

abbrev pub is_of_type : Option DocumentType → ShipmentDocument → Bool
is_of_type none d = true
is_of_type (some t) d = same_type d.document_type t

unfoldable pub fits_document : (shipment_id org : ℕ) → Option DocumentType → ShipmentDocument → Bool
fits_document shipment_id org wanted d =
    d.shipment_id == shipment_id && d.organization_id == org && is_of_type wanted d

-- A filter that names no type of documents is an error of the database.
unfoldable pub list_documents :
    (order : String → SortOrder → List ShipmentDocument → List ShipmentDocument)
    → ℕ
    → ListQuery
    → AuthContext
    → Archive
    → Result (Page ShipmentDocument)
unfolding fits_document
list_documents order shipment_id q actor a =
    let org = actor.organization_id in
    elim (filter_of "document_type" q.filters) [
      | none ↦ ok (list_rows order (fits_document shipment_id org none) a.documents q)
      | some t ↦ elim (document_type_of t) [
        | none ↦ err (pg_error "22P02")
        | some wanted ↦
            ok (list_rows order (fits_document shipment_id org (some wanted)) a.documents q)
      ]
    ]
