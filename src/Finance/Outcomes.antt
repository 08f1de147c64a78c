-- ===== src/Finance/Outcomes.antt =====
-- Every outcome of `createCostEntry`.
use ceoma_api.Prelude.{
  ℕ, ◌≡◌, refl, Bool, true, Option, none, some, ◌∷◌, inl, inr, Bool-cases, any, ◌==◌, if◌then◌else◌,
}
use ceoma_api.Errors.{Result, ok, err, api_error, pg_error, not_found}
use ceoma_api.Store.{Store, CostEntry, AuthContext, lot_row, shipment_row, with_transaction}
use ceoma_api.DbHelpers.{has_row, table_has}
use ceoma_api.DbHelpers.Laws.{ensure_reference_lem}
use ceoma_api.Finance.{CostEntryInput, new_cost_entry, check_optional, create_cost_entry}

module _ (cost_entry_id : ℕ) (input : CostEntryInput) (actor : AuthContext) (s : Store) where
  abbrev pub has_lot : Option ℕ → Bool
  has_lot none = true
  has_lot (some id) = has_row id (some actor.organization_id) s.lots

  abbrev pub has_shipment : Option ℕ → Bool
  has_shipment none = true
  has_shipment (some id) = has_row id (some actor.organization_id) s.shipments

  abbrev pub id_or_zero : Option ℕ → ℕ
  id_or_zero none = 0
  id_or_zero (some id) = id

  abbrev pub entered : Store
  entered = record s { cost_entries = new_cost_entry cost_entry_id input actor ∷ s.cost_entries }

  abbrev pub cost_outcome : Result CostEntry × Store
  cost_outcome =
      if has_lot input.lot_id
      then (if has_shipment input.shipment_id
          then (if any (λ r. r.id == cost_entry_id) s.cost_entries
              then (err (pg_error "23505"), s)
              else (ok (new_cost_entry cost_entry_id input actor), entered))
          else (err (api_error 404 (not_found "Shipment" (id_or_zero input.shipment_id))), s))
      else (err (api_error 404 (not_found "Lot" (id_or_zero input.lot_id))), s)

  lot_reference :
      (o : Option ℕ)
      → check_optional cost_entry_id input actor "lots" "Lot" o s
        ≡ ((if has_lot o then ok tt else err (api_error 404 (not_found "Lot" (id_or_zero o)))), s)
  unfolding table_has
  lot_reference none = refl
  lot_reference (some id) = ensure_reference_lem "lots" id "Lot" _ s (has_lot (some id)) refl refl

  shipment_reference :
      (o : Option ℕ)
      → check_optional cost_entry_id input actor "shipments" "Shipment" o s ≡ (
        (if has_shipment o
            then ok tt
            else err (api_error 404 (not_found "Shipment" (id_or_zero o)))),
        s,
      )
  unfolding table_has
  shipment_reference none = refl
  shipment_reference (some id) =
      ensure_reference_lem "shipments" id "Shipment" _ s (has_shipment (some id)) refl refl

  -- A cost is entered only for a lot and a shipment of the organization, where they are given
  -- (404 otherwise), and under an unused identifier; a refusal writes nothing, and an entry
  -- changes no other table.
  pub create_cost_entry_lem : create_cost_entry cost_entry_id input actor s ≡ cost_outcome
  unfolding create_cost_entry with_transaction
  create_cost_entry_lem = elim (Bool-cases (has_lot input.lot_id)) [
    | inr stranger ↦ rw (lot_reference input.lot_id, stranger) refl
    | inl known ↦
        rw (lot_reference input.lot_id, known)
          (elim (Bool-cases (has_shipment input.shipment_id)) [
            | inr stranger ↦ rw (shipment_reference input.shipment_id, stranger) refl
            | inl sent ↦
                rw (shipment_reference input.shipment_id, sent)
                  (elim (Bool-cases (any (λ r. r.id == cost_entry_id) s.cost_entries)) [
                    | inl old ↦ rw old refl
                    | inr new ↦ rw new refl
                  ])
          ])
  ]
