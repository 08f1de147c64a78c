-- ===== src/Documents/Outcomes.antt =====
-- What `generateDocuments` writes (src/modules/shipments/shipments.service.ts).
use ceoma_api.Prelude.{
  ◌≡◌, refl, ◌⊎◌, ℕ, ℤ, true, arith, length, none, some, List, [], ◌∷◌, map, All, All-map,
  Bool-cases, Option-cases, inl, inr,
}
use ceoma_api.Errors.{Failure, ok, err, api_error, pg_error, other_error, text, not_found}
use ceoma_api.Sql.{owned, find}
use ceoma_api.Store.{
  AuthContext, DocumentType, Shipment, Contract, Allocation, shipment_row, contract_row,
  reference_row, with_transaction,
}
use ceoma_api.Documents.{
  ShipmentDocument, Archive, has_no_rows, payload_of, generate_documents, shipped_allocations,
}
use ceoma_api.Documents.Writing.{
  added, IsInUse, IsWritten, write_documents_lem, Agrees, LacksParty, payload_of-Agrees,
  payload_of_fails,
}

has_no_rows-nil : (xs : List Allocation) → has_no_rows xs ≡ true → xs ≡ []
unfolding has_no_rows
has_no_rows-nil [] e = refl
has_no_rows-nil (x ∷ xs) e = cc

module _ (divide : ℤ → ℤ → ℤ) (new_id : ℕ → ℕ) (shipment_id : ℕ) (types : List DocumentType)
    (actor : AuthContext) (a : Archive) where
  -- Why nothing is written
  abbrev pub Refused : Failure → Type 0
  Refused e =
      let org = actor.organization_id in
      ((e ≡ api_error 404 (not_found "Shipment" shipment_id))
        × (find (owned shipment_id org) a.store.shipments ≡ none))
      ⊎ (((e ≡ api_error 409 (text "No shipped allocations found for this shipment"))
            × (shipped_allocations shipment_id org a.store ≡ []))
          ⊎ (((e ≡ pg_error "23505") × IsInUse new_id 0 (length types) a.documents)
              ⊎ ((e ≡ other_error)
                  × ((shipment : Shipment) × (find (owned shipment_id org) a.store.shipments
                        ≡ some shipment)
                      × LacksParty org shipment_id shipment a.store))))

  -- A document of the shipment, whose payload agrees with the others
  abbrev pub IsFaithful : Shipment → ShipmentDocument → Type 0
  IsFaithful shipment d =
      (d.organization_id ≡ actor.organization_id)
      × (d.shipment_id ≡ shipment_id)
      × Agrees actor.organization_id shipment_id shipment a.store d.document_type d.payload

  Outcome : Type 0
  Outcome =
      ((e : Failure) × (generate_documents divide new_id shipment_id types actor a ≡ (err e, a))
        × Refused e)
      ⊎ ((shipment : Shipment) × (ds : List ShipmentDocument) × (find
              (owned shipment_id actor.organization_id) a.store.shipments
            ≡ some shipment)
          × (generate_documents divide new_id shipment_id types actor a
              ≡ (ok ds, record a { documents = added ds a.documents }))
          × (map (λ d. d.document_type) ds ≡ types)
          × All (IsFaithful shipment) ds)

  with_contract :
      (shipment : Shipment) (contract : Contract)
      → find (owned shipment_id actor.organization_id) a.store.shipments ≡ some shipment
      → find (owned shipment.contract_id actor.organization_id) a.store.contracts ≡ some contract
      → Outcome
  unfolding Outcome generate_documents with_transaction
  with_contract shipment contract found signed =
      let org = actor.organization_id in
      let allocations = shipped_allocations shipment_id org a.store in
      let buyer = find (owned contract.buyer_id org) a.store.buyers in
      let payload = payload_of divide shipment contract buyer allocations org a.store in
      elim (Bool-cases (has_no_rows allocations)) [
        | inl empty ↦ inl (
          api_error 409 (text "No shipped allocations found for this shipment"),
          rw (found, generate_documents) (rw signed (rw empty)),
          inr (inl (refl, has_no_rows-nil allocations empty)),
        )
        | inr filled ↦ elim (write_documents_lem payload org shipment_id new_id 0 types a) [
          | inl (e, a', fails, why) ↦ inl (
            e,
            rw (found, generate_documents) (rw signed (rw filled (rw fails))),
            elim why [
              | inl (violates, (k, lo, hi, twice)) ↦
                  inr (inr (inl (violates, (k, lo, omega arith, twice))))
              | inr (t, h) ↦
                  let (other, nobody) =
                    payload_of_fails org shipment_id shipment a.store divide contract buyer
                      allocations t h in
                  inr (inr (inr (other, (shipment, found, inr (contract, signed, nobody)))))
            ],
          )
          | inr (ds, wrote, kinds, all) ↦ elim (Option-cases buyer) [
            | inl nobody ↦ inl (
              other_error,
              rw (found, generate_documents) (rw signed (rw filled (rw wrote (rw nobody)))),
              inr (inr (inr (refl, (shipment, found, inr (contract, signed, nobody))))),
            )
            | inr (b, named) ↦ inr (
              shipment,
              ds,
              found,
              rw (found, generate_documents) (rw signed (rw filled (rw wrote (rw named)))),
              kinds,
              All-map (IsWritten payload org shipment_id new_id) (IsFaithful shipment) ds
                  (λ d w. (
                    w.0,
                    w.1,
                    payload_of-Agrees org shipment_id shipment a.store divide contract buyer
                        d.document_type w.2,
                  ))
                  all,
            )
          ]
        ]
      ]

  -- Generating documents either fails and writes nothing, because the organization has no such
  -- shipment (404), the shipment has no allocations (409), the UUID of some document is that
  -- of a document in the table or of an earlier one of the call (a unique violation), or the
  -- shipment's contract or its buyer is missing, or adds one document for each requested type,
  -- in order, all of the shipment and the organization, and each with the payload of its own
  -- type: an invoice, which names the shipment and, to the gram, the sum of the weights of the
  -- shipment's allocations in the table; a packing list, which names the shipment and whose
  -- items add up to the same sum; the frozen snapshot for a traceability report; a cost
  -- summary that names the shipment.
  pub generate_documents_lem :
      ((e : Failure) × (generate_documents divide new_id shipment_id types actor a ≡ (err e, a))
        × Refused e)
      ⊎ ((shipment : Shipment) × (ds : List ShipmentDocument) × (find
              (owned shipment_id actor.organization_id)
              a.store.shipments
            ≡ some shipment)
          × (generate_documents divide new_id shipment_id types actor a
              ≡ (ok ds, record a { documents = added ds a.documents }))
          × (map (λ d. d.document_type) ds ≡ types)
          × All (IsFaithful shipment) ds)
  unfolding Outcome generate_documents with_transaction
  generate_documents_lem =
      let org = actor.organization_id in
      elim (Option-cases (find (owned shipment_id org) a.store.shipments)) [
        | inl missing ↦ inl (
          api_error 404 (not_found "Shipment" shipment_id),
          rw (missing, generate_documents),
          inl (refl, missing),
        )
        | inr (shipment, found) ↦
            elim (Option-cases (find (owned shipment.contract_id org) a.store.contracts)) [
              | inl unsigned ↦ inl (
                other_error,
                rw (found, generate_documents) (rw unsigned),
                inr (inr (inr (refl, (shipment, found, inl unsigned)))),
              )
              | inr (contract, signed) ↦ with_contract shipment contract found signed
            ]
      ]
