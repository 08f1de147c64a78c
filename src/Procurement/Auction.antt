-- ===== src/Procurement/Auction.antt =====
-- `createAuctionLot`: every outcome, and that the books stay sound and balanced.
use ceoma_api.Prelude.{
  ℕ, ◌≡◌, refl, ◌≢◌, pos, ◌<ℤ◌, false, Option, none, some, ◌∷◌, All, arith, if◌then◌else◌,
  Option-cases, inl, inr, Bool-cases,
}
use ceoma_api.Errors.{Result, ok, err, api_error, pg_error, text, not_found}
use ceoma_api.Sql.{owned, find}
use ceoma_api.Store.{
  Store, Lot, Supplier, supplier_row, agreement_row, AuthContext, settle, continue,
  with_transaction,
}
use ceoma_api.Books.{IsSound, IsBalanced}
use ceoma_api.Procurement.Places.{
  places, check_places_lem, put_lot-IsSound, put_lot-IsBalanced, bought-IsSound,
}
use ceoma_api.Procurement.{
  AuctionLotInput, is_auction_agent, lot_clash, put_lot, auction_lot, auction_record, auction_clash,
  insert_auction, create_auction_lot,
}

module _ (lot_id record_id : ℕ) (input : AuctionLotInput) (actor : AuthContext) (s : Store) where
  abbrev pub new_lot : Lot
  new_lot = auction_lot lot_id record_id input actor

  abbrev pub bought : Store
  bought = record (put_lot new_lot s) {
    auction_procurements = auction_record lot_id record_id input actor ∷ s.auction_procurements;
  }

  abbrev pub insert_outcome : Result (Unit {0}) → Result Lot × Store
  insert_outcome (err e) = (err e, s)
  insert_outcome (ok _) =
      if lot_clash new_lot s
      then (err (pg_error "23505"), s)
      else if auction_clash lot_id record_id input actor s
      then (err (pg_error "23505"), s)
      else (ok new_lot, bought)

  abbrev pub auction_outcome : Option Supplier → Result Lot × Store
  auction_outcome none = (err (api_error 404 (not_found "Supplier" input.marketing_agent_id)), s)
  auction_outcome (some agent) =
      if is_auction_agent agent
      then insert_outcome
          (places input.grade_id input.warehouse_id input.bag_type_id actor.organization_id s)
      else (
        err (
            api_error 400
              (text "marketing_agent_id must reference a supplier with type auction_agent")),
        s,
      )

  abbrev pub read_agent : Option Supplier
  read_agent = find (owned input.marketing_agent_id actor.organization_id) s.suppliers

  placed :
      (r : Result (Unit {0}))
      → settle s (continue (r, s) (λ _. insert_auction lot_id record_id input actor))
        ≡ insert_outcome r
  unfolding insert_auction
  placed (err e) = refl
  placed (ok u) = ground arith

  -- A lot is bought at auction only from a supplier of the organization that is an auction
  -- agent (404 or 400 otherwise), into a grade, warehouse and bag type of the organization
  -- (404), and under a code that the organization has not used (a unique violation); a refusal
  -- writes nothing, neither the lot nor its auction record. An accepted lot is in stock and
  -- all of it available.
  pub create_auction_lot_lem :
      create_auction_lot lot_id record_id input actor s ≡ auction_outcome read_agent
  unfolding create_auction_lot with_transaction
  create_auction_lot_lem = elim (Option-cases read_agent) [
    | inl missing ↦ rw missing refl
    | inr (agent, found) ↦ rw found (elim (Bool-cases (is_auction_agent agent)) [
      | inr other ↦ rw other refl
      | inl fits ↦
          rw
            (
              fits,
              check_places_lem input.grade_id input.warehouse_id input.bag_type_id
                  actor.organization_id s,
            )
            (placed _)
    ])
  ]

  pub create_auction_lot_keeps :
      (P : Store → Type 0)
      → P s
      → (lot_clash new_lot s ≡ false → P bought)
      → P (create_auction_lot lot_id record_id input actor s).1
  create_auction_lot_keeps P before after =
      rw create_auction_lot_lem (elim (Option-cases read_agent) [
        | inl missing ↦ rw missing before
        | inr (agent, found) ↦ rw found (elim (Bool-cases (is_auction_agent agent)) [
          | inr other ↦ rw other before
          | inl fits ↦ rw fits (inserted _)
        ])
      ])
    where
      inserted : (r : Result (Unit {0})) → P (insert_outcome r).1
      inserted (err e) = before
      inserted (ok u) = ground (arith, before, after)

  -- Buying a lot of a positive weight at auction in sound books, whatever the outcome, keeps
  -- the weights sound.
  pub create_auction_lot-IsSound :
      pos 0 <ℤ input.weight_total_kg
      → IsSound s
      → IsSound (create_auction_lot lot_id record_id input actor s).1
  create_auction_lot-IsSound positive h = create_auction_lot_keeps IsSound h (λ fresh.
      let k : IsSound (put_lot new_lot s) =
        put_lot-IsSound new_lot (bought-IsSound input.weight_total_kg new_lot positive refl refl)
          fresh h in
      record {
        lot_keys = k.lot_keys;
        contract_keys = k.contract_keys;
        allocation_keys = k.allocation_keys;
        lots = k.lots;
        contracts = k.contracts;
        allocations = k.allocations;
      })

  -- A lot bought at auction under an identifier that no allocation names keeps balanced books
  -- balanced.
  pub create_auction_lot-IsBalanced :
      All (λ a. a.lot_id ≢ lot_id) s.allocations
      → IsBalanced s
      → IsBalanced (create_auction_lot lot_id record_id input actor s).1
  create_auction_lot-IsBalanced unnamed b = create_auction_lot_keeps IsBalanced b (λ fresh.
      let k : IsBalanced (put_lot new_lot s) = put_lot-IsBalanced new_lot refl unnamed b in
      record { lots = k.lots; contracts = k.contracts })
