-- ===== src/Procurement/Direct.antt =====
-- `createDirectAgreement` and `createDirectDelivery`: every outcome, and the books.
use ceoma_api.Prelude.{
  ℕ, ◌≡◌, refl, pos, ◌<ℤ◌, false, Option, none, some, ◌∷◌, ◌==◌, arith, if◌then◌else◌, Option-cases,
  inl, inr, Bool-cases, any,
}
use ceoma_api.Errors.{Result, ok, err, api_error, pg_error, text, not_found}
use ceoma_api.Sql.{owned, find}
use ceoma_api.Store.{
  Store, Lot, Supplier, DirectAgreement, supplier_row, agreement_row, AuthContext, settle, continue,
  with_transaction,
}
use ceoma_api.Books.{IsSound}
use ceoma_api.Procurement.Places.{places, check_places_lem, put_lot-IsSound, bought-IsSound}
use ceoma_api.Procurement.{
  DirectAgreementInput, DirectDeliveryInput, is_auction_agent, lot_clash, put_lot, new_agreement,
  create_direct_agreement, delivery_lot, delivery_record, delivery_clash, insert_delivery,
  create_direct_delivery,
}

module _ (agreement_id : ℕ) (input : DirectAgreementInput) (actor : AuthContext) (s : Store) where
  abbrev pub agreed : Store
  agreed = record s {
    direct_agreements = new_agreement agreement_id input actor ∷ s.direct_agreements;
  }

  abbrev pub agreement_outcome : Option Supplier → Result DirectAgreement × Store
  agreement_outcome none = (err (api_error 404 (not_found "Supplier" input.supplier_id)), s)
  agreement_outcome (some supplier) =
      if is_auction_agent supplier
      then (
        err (
            api_error 400
              (text "Direct procurement supplier cannot be an auction marketing agent")),
        s,
      )
      else if any (λ r. r.id == agreement_id) s.direct_agreements
      then (err (pg_error "23505"), s)
      else (ok (new_agreement agreement_id input actor), agreed)

  -- A direct agreement is made with a supplier of the organization (404 otherwise) that is no
  -- auction agent (400 otherwise); a refusal writes nothing, and an agreement changes no other
  -- table.
  pub create_direct_agreement_lem :
      create_direct_agreement agreement_id input actor s
      ≡ agreement_outcome (find (owned input.supplier_id actor.organization_id) s.suppliers)
  unfolding create_direct_agreement with_transaction
  create_direct_agreement_lem =
      elim (Option-cases (find (owned input.supplier_id actor.organization_id) s.suppliers)) [
        | inl missing ↦ rw missing refl
        | inr (supplier, found) ↦ rw found (elim (Bool-cases (is_auction_agent supplier)) [
          | inl agent ↦ rw agent refl
          | inr other ↦ rw other (ground arith)
        ])
      ]

module _ (lot_id record_id : ℕ) (input : DirectDeliveryInput) (actor : AuthContext)
    (s : Store) where
  abbrev pub new_lot : DirectAgreement → Lot
  new_lot agreement = delivery_lot lot_id record_id input actor agreement

  abbrev pub delivered : DirectAgreement → Store
  delivered agreement = record (put_lot (new_lot agreement) s) {
    direct_deliveries = delivery_record lot_id record_id input actor ∷ s.direct_deliveries;
  }

  abbrev pub insert_outcome : DirectAgreement → Result (Unit {0}) → Result Lot × Store
  insert_outcome agreement (err e) = (err e, s)
  insert_outcome agreement (ok _) =
      if lot_clash (new_lot agreement) s
      then (err (pg_error "23505"), s)
      else if delivery_clash lot_id record_id input actor s
      then (err (pg_error "23505"), s)
      else (ok (new_lot agreement), delivered agreement)

  abbrev pub delivery_outcome : Option DirectAgreement → Result Lot × Store
  delivery_outcome none = (err (api_error 404 (not_found "Direct agreement" input.agreement_id)), s)
  delivery_outcome (some agreement) =
      insert_outcome agreement
        (places input.grade_id input.warehouse_id input.bag_type_id actor.organization_id s)

  abbrev pub read_agreement : Option DirectAgreement
  read_agreement = find (owned input.agreement_id actor.organization_id) s.direct_agreements

  placed :
      (agreement : DirectAgreement) (r : Result (Unit {0}))
      → settle s (continue (r, s) (λ _. insert_delivery lot_id record_id input actor agreement))
        ≡ insert_outcome agreement r
  unfolding insert_delivery
  placed agreement (err e) = refl
  placed agreement (ok u) = ground arith

  -- A delivery is taken in only under an agreement of the organization (404 otherwise), with a
  -- grade, warehouse and bag type of the organization (404) and an unused lot code (a unique
  -- violation); a refusal writes nothing. The lot takes its supplier, crop year and price from
  -- the agreement, and processing and transport make up its additional cost.
  pub create_direct_delivery_lem :
      create_direct_delivery lot_id record_id input actor s ≡ delivery_outcome read_agreement
  unfolding create_direct_delivery with_transaction
  create_direct_delivery_lem = elim (Option-cases read_agreement) [
    | inl missing ↦ rw missing refl
    | inr (agreement, found) ↦
        rw
          (
            found,
            check_places_lem input.grade_id input.warehouse_id input.bag_type_id
                actor.organization_id s,
          )
          (placed agreement _)
  ]

  pub create_direct_delivery_keeps :
      (P : Store → Type 0)
      → P s
      → ((agreement : DirectAgreement)
          → lot_clash (new_lot agreement) s ≡ false
          → P (delivered agreement))
      → P (create_direct_delivery lot_id record_id input actor s).1
  create_direct_delivery_keeps P before after =
      rw create_direct_delivery_lem (elim (Option-cases read_agreement) [
        | inl missing ↦ rw missing before
        | inr (agreement, found) ↦ rw found (inserted agreement _)
      ])
    where
      inserted :
          (agreement : DirectAgreement) (r : Result (Unit {0})) → P (insert_outcome agreement r).1
      inserted agreement (err e) = before
      inserted agreement (ok u) = ground (arith, before, after agreement)

  -- Taking in a delivery of a positive weight in sound books, whatever the outcome, keeps the
  -- weights sound.
  pub create_direct_delivery-IsSound :
      pos 0 <ℤ input.weight_total_kg
      → IsSound s
      → IsSound (create_direct_delivery lot_id record_id input actor s).1
  create_direct_delivery-IsSound positive h =
      create_direct_delivery_keeps IsSound h (λ agreement fresh.
        let k : IsSound (put_lot (new_lot agreement) s) =
          put_lot-IsSound (new_lot agreement)
            (bought-IsSound input.weight_total_kg (new_lot agreement) positive refl refl) fresh h in
        record {
          lot_keys = k.lot_keys;
          contract_keys = k.contract_keys;
          allocation_keys = k.allocation_keys;
          lots = k.lots;
          contracts = k.contracts;
          allocations = k.allocations;
        })
