-- ===== src/Documents/Writing.antt =====
-- The loop of `generateDocuments` over the requested types and the payloads that it writes
-- (src/modules/shipments/shipments.service.ts).
use mathlib.Core.Path.{subst}
use ceoma_api.Prelude.{
  ◌≡◌, refl, ap, ◌⊎◌, ℕ, suc, ◌+◌, ◌≤◌, ◌<◌, ℤ, true, arith, length, Option, none, some, List, [],
  ◌∷◌, map, ◌==◌, any, All, Bool-cases, inl, inr,
}
use ceoma_api.Errors.{Failure, Result, ok, err, pg_error, other_error, Result-cases}
use ceoma_api.Quantity.{numeric_3}
use ceoma_api.Sql.{owned, find}
use ceoma_api.Store.{
  Store, DocumentType, Shipment, Contract, Reference, Allocation, shipment_row, contract_row,
  reference_row,
}
use ceoma_api.Documents.{
  Payload, invoice, packing_list, traceability, cost_summary, ShipmentDocument, Archive, invoice_of,
  payload_of, costs_of, packed, new_document, write_documents, shipped_allocations,
}
use ceoma_api.Documents.Weights.{
  sum_items, shipped_kg, total_weight-shipped_allocations, sum_items-shipped_allocations,
}

-- The documents in the table, the last one first
abbrev pub added : List ShipmentDocument → List ShipmentDocument → List ShipmentDocument
added [] table = table
added (d ∷ ds) table = added ds (d ∷ table)

module _ (new_id : ℕ → ℕ) where
  -- The UUID of draw `k` is that of a document in the table, or of an earlier draw.
  abbrev pub IsInUse : (from to : ℕ) → List ShipmentDocument → Type 0
  IsInUse from to table =
      (k : ℕ) × (from ≤ k)
      × (k < to)
      × ((any (λ x. x.id == new_id k) table ≡ true)
          ⊎ ((j : ℕ) × (from ≤ j) × (j < k) × (new_id j ≡ new_id k)))

  IsInUse-cons :
      (n to : ℕ) (d : ShipmentDocument) (table : List ShipmentDocument)
      → d.id ≡ new_id n
      → IsInUse (suc n) to (d ∷ table)
      → IsInUse n to table
  IsInUse-cons n to d table own (k, from, below, clash) = elim clash [
    | inr (j, lo, hi, same) ↦ (k, omega arith, below, inr (j, omega arith, hi, same))
    | inl there ↦ elim (Bool-cases (d.id == new_id k)) [
      | inl same ↦ (k, omega arith, below, inr (n, omega arith, from, ground arith))
      | inr other ↦ (k, omega arith, below, inl (rw other at there))
    ]
  ]

module _ (payload : DocumentType → Result Payload) (org shipment_id : ℕ) (new_id : ℕ → ℕ) where
  abbrev pub IsWritten : ShipmentDocument → Type 0
  IsWritten d =
      (d.organization_id ≡ org)
      × (d.shipment_id ≡ shipment_id)
      × (payload d.document_type ≡ ok d.payload)

  -- Either the loop fails, or it adds one document for each type, in order.
  abbrev pub Written : ℕ → List DocumentType → Archive → Type 0
  Written n types a =
      ((e : Failure) × (a' : Archive) × (write_documents payload org shipment_id new_id n types a
          ≡ (err e, a'))
        × (((e ≡ pg_error "23505") × IsInUse new_id n (n + length types) a.documents)
            ⊎ ((t : DocumentType) × (payload t ≡ err e))))
      ⊎ ((ds : List ShipmentDocument) × (write_documents payload org shipment_id new_id n types a
            ≡ (ok ds, record a { documents = added ds a.documents }))
          × (map (λ d. d.document_type) ds ≡ types)
          × All IsWritten ds)

  pub write_documents_lem : (n : ℕ) (types : List DocumentType) (a : Archive) → Written n types a
  unfolding write_documents
  write_documents_lem n [] a = inr ([], refl, refl, tt)
  write_documents_lem n (t ∷ types) a = elim (Result-cases (payload t)) [
    | inl (e, fails) ↦ inl (e, a, rw (fails, write_documents), inr (t, fails))
    | inr (p, fine) ↦
        let d = new_document (new_id n) org shipment_id t p in
        let next = record a { documents = d ∷ a.documents } in
        elim (Bool-cases (any (λ x. x.id == new_id n) a.documents)) [
          | inl clash ↦ inl (
            pg_error "23505",
            a,
            rw (fine, write_documents) (rw clash),
            inl (refl, (n, omega arith, omega arith, inl clash)),
          )
          | inr fresh ↦ elim (write_documents_lem (suc n) types next) [
            | inl (e, a', later, why) ↦ inl (
              e,
              a',
              rw (fine, write_documents) (rw fresh (rw later)),
              elim why [
                | inl (violates, (k, lo, hi, twice)) ↦ inl (
                  violates,
                  IsInUse-cons new_id n (n + suc (length types)) d a.documents refl
                      (k, lo, omega arith, twice),
                )
                | inr fails ↦ inr fails
              ],
            )
            | inr (ds, later, kinds, all) ↦ inr (
              d ∷ ds,
              rw (fine, write_documents) (rw fresh (rw later)),
              ap (λ l. t ∷ l) kinds,
              ((refl, refl, fine), all),
            )
          ]
        ]
  ]

module _ (org shipment_id : ℕ) (shipment : Shipment) (s : Store) where
  -- What the payload of a document of each type is: no other payload goes with the type.
  abbrev pub Agrees : DocumentType → Payload → Type 0
  Agrees DocumentType.commercial_invoice (invoice i) =
      (i.shipment_number ≡ shipment.shipment_number)
      × (i.total_weight_kg ≡ numeric_3 (shipped_kg shipment_id org s))
  Agrees DocumentType.packing_list (packing_list number items) =
      (number ≡ shipment.shipment_number) × (sum_items items ≡ shipped_kg shipment_id org s)
  Agrees DocumentType.traceability_report (traceability t) = t ≡ shipment.traceability_snapshot
  Agrees DocumentType.cost_breakdown_summary (cost_summary c) =
      c.shipment_number ≡ shipment.shipment_number
  Agrees _ _ = ⊥

  -- The contract, or its buyer, is not there for the organization.
  abbrev pub LacksParty : Type 0
  LacksParty =
      (find (owned shipment.contract_id org) s.contracts ≡ none)
      ⊎ ((c : Contract) × (find (owned shipment.contract_id org) s.contracts ≡ some c)
          × (find (owned c.buyer_id org) s.buyers ≡ none))

  module _ (divide : ℤ → ℤ → ℤ) (contract : Contract) where
    pub payload_of-Agrees :
        (buyer : Option Reference) (t : DocumentType) {p : Payload}
        → payload_of divide shipment contract buyer (shipped_allocations shipment_id org s) org s t
          ≡ ok p
        → Agrees t p
    unfolding payload_of invoice_of costs_of
    payload_of-Agrees none DocumentType.commercial_invoice e = cc
    payload_of-Agrees (some b) DocumentType.commercial_invoice {p} e =
        let made = invoice_of shipment contract b (shipped_allocations shipment_id org s) in
        let same : invoice made ≡ p = cc in
        subst (Agrees DocumentType.commercial_invoice) same
          (refl, ap numeric_3 (total_weight-shipped_allocations shipment_id org s))
    payload_of-Agrees buyer DocumentType.packing_list {p} e =
        let items = map packed (shipped_allocations shipment_id org s) in
        let same : packing_list shipment.shipment_number items ≡ p = cc in
        subst (Agrees DocumentType.packing_list) same
          (refl, sum_items-shipped_allocations shipment_id org s)
    payload_of-Agrees buyer DocumentType.traceability_report {p} e =
        let same : traceability shipment.traceability_snapshot ≡ p = cc in
        subst (Agrees DocumentType.traceability_report) same refl
    payload_of-Agrees buyer DocumentType.cost_breakdown_summary {p} e =
        let same : cost_summary (costs_of divide shipment shipment.id org s) ≡ p = cc in
        subst (Agrees DocumentType.cost_breakdown_summary) same refl

    pub payload_of_fails :
        (buyer : Option Reference) (allocations : List Allocation) (t : DocumentType) {e : Failure}
        → payload_of divide shipment contract buyer allocations org s t ≡ err e
        → (e ≡ other_error) × (buyer ≡ none)
    unfolding payload_of
    payload_of_fails none allocations DocumentType.commercial_invoice h = (cc, refl)
    payload_of_fails (some b) allocations DocumentType.commercial_invoice h = cc
    payload_of_fails buyer allocations DocumentType.packing_list h = cc
    payload_of_fails buyer allocations DocumentType.traceability_report h = cc
    payload_of_fails buyer allocations DocumentType.cost_breakdown_summary h = cc
