-- ===== src/Tests/Documents.antt =====
-- The documents of a shipment and the trace of its lot.
use ceoma_api.Prelude.{◌≡◌, ◌⊎◌, true, refl, ℕ, ◌+◌, ℤ, pos, some, List, [], ◌∷◌, map, All}
use ceoma_api.Errors.{Failure, is_ok, ok, err}
use ceoma_api.Sql.{owned, find, select}
use ceoma_api.Store.{
  Shipment, AllocationStatus, DocumentType, lot_row, shipment_row, with_transaction,
}
use ceoma_api.Documents.{
  ShipmentDocument, Archive, generate_documents, write_documents, shipped_allocations, payload_of,
  sort_by_id, has_no_rows,
}
use ceoma_api.Documents.Writing.{added}
use ceoma_api.Documents.Outcomes.{Refused, IsFaithful, generate_documents_lem}
use ceoma_api.Documents.Trace.{Trace}
use ceoma_api.Tests.Data.{store_a, allocation_a, trader_a}

-- The allocation has gone out with shipment 40.
abbrev archive_a : Archive
archive_a = record {
  store = record store_a {
    allocations =
        record allocation_a { status = AllocationStatus.shipped; shipment_id = some 40 } ∷ [];
  };
  documents = [];
}

-- A quotient that is good enough here
abbrev nothing : ℤ → ℤ → ℤ
nothing _ _ = pos 0

abbrev numbers : ℕ → ℕ
numbers n = n + 70

abbrev all_types : List DocumentType
all_types =
    DocumentType.commercial_invoice ∷ DocumentType.packing_list ∷ DocumentType.traceability_report
    ∷ DocumentType.cost_breakdown_summary ∷ []

generate_documents_lem_example :
    ((e : Failure) × (generate_documents nothing numbers 40 all_types trader_a archive_a
        ≡ (err e, archive_a))
      × Refused nothing numbers 40 all_types trader_a archive_a e)
    ⊎ ((shipment : Shipment) × (ds : List ShipmentDocument) × (find
            (owned 40 1)
            archive_a.store.shipments
          ≡ some shipment)
        × (generate_documents nothing numbers 40 all_types trader_a archive_a
            ≡ (ok ds, record archive_a { documents = added ds [] }))
        × (map (λ d. d.document_type) ds ≡ all_types)
        × All (IsFaithful nothing numbers 40 all_types trader_a archive_a shipment) ds)
generate_documents_lem_example =
    generate_documents_lem nothing numbers 40 all_types trader_a archive_a

-- All four are made.
generated : is_ok (generate_documents nothing numbers 40 all_types trader_a archive_a).0 ≡ true
unfolding generate_documents write_documents payload_of shipped_allocations with_transaction find
    select sort_by_id has_no_rows
generated = refl
