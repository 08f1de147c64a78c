-- ===== src/Trading/Steps.antt =====
-- What one call does to the books.
use ceoma_api.Prelude.{ℕ, ◌≡◌, refl, sym, ◌∙◌, Option, none, some, arith, Bool-cases, inl, inr}
use ceoma_api.Sql.{find, owned}
use ceoma_api.Store.{
  Store, Supplier, Shipment, AuthContext, supplier_row, shipment_row, lot_row, contract_row,
}
use ceoma_api.Books.{IsSound, IsBalanced}
use ceoma_api.Books.Links.{IsLinked, IsLinked-lot_fresh, IsLinked-contract_fresh, HasRow-absurd}
use ceoma_api.Inventory.Laws.{adjust_stock-IsSound, adjust_stock-IsBalanced}
use ceoma_api.Contracts.{ContractInput, contract_clash, create_contract}
use ceoma_api.Contracts.Soundness.{allocate_lot-IsSound}
use ceoma_api.Contracts.Balance.{allocate_lot-IsBalanced}
use ceoma_api.Contracts.Creation.{
  create_contract-IsSound, create_contract-IsBalanced, create_contract_keeps,
}
use ceoma_api.Shipments.{ShipmentStatusInput, update_status}
use ceoma_api.Shipments.Soundness.{create_shipment-IsSound}
use ceoma_api.Shipments.Balance.{create_shipment-IsBalanced}
use ceoma_api.Shipments.Progress.{update_status_lem, status_outcome, read_shipment}
use ceoma_api.Procurement.{
  AuctionLotInput, DirectAgreementInput, DirectDeliveryInput, lot_clash, put_lot, auction_lot,
  delivery_lot, create_auction_lot, create_direct_agreement, create_direct_delivery,
}
use ceoma_api.Procurement.Places.{put_lot-IsBalanced}
use mathlib.Core.Bool.{false≢true}
use ceoma_api.Procurement.Auction.{
  create_auction_lot-IsSound, create_auction_lot-IsBalanced, create_auction_lot_keeps,
}
use ceoma_api.Procurement.Direct.{
  create_direct_agreement_lem, agreement_outcome, create_direct_delivery-IsSound,
  create_direct_delivery_keeps,
}
use ceoma_api.Finance.{CostEntryInput, create_cost_entry}
use ceoma_api.Finance.Outcomes.{create_cost_entry_lem}
use ceoma_api.Trading.Calls.{Call, perform, IsValidated, IsInGrams}
use ceoma_api.Trading.Links.{
  adjust_stock-IsLinked, create_contract-IsLinked, allocate_lot-IsLinked, create_shipment-IsLinked,
  create_auction_lot-IsLinked, create_direct_delivery-IsLinked,
}

pub record IsConsistent (s : Store) : Type 0 where
  pub sound : IsSound s
  pub balanced : IsBalanced s
  pub linked : IsLinked s

-- Two stores with the same lots, contracts and allocations
abbrev SameBooks : Store → Store → Type 0
SameBooks s t = (t.lots ≡ s.lots) × (t.contracts ≡ s.contracts) × (t.allocations ≡ s.allocations)

SameBooks-IsSound : (s t : Store) → SameBooks s t → IsSound s → IsSound t
SameBooks-IsSound s t (lots, contracts, allocations) h = record {
  lot_keys = rw lots h.lot_keys;
  contract_keys = rw contracts h.contract_keys;
  allocation_keys = rw allocations h.allocation_keys;
  lots = rw lots h.lots;
  contracts = rw contracts h.contracts;
  allocations = rw allocations h.allocations;
}

SameBooks-IsBalanced : (s t : Store) → SameBooks s t → IsBalanced s → IsBalanced t
SameBooks-IsBalanced s t (lots, contracts, allocations) h = record {
  lots = rw (lots, allocations) h.lots;
  contracts = rw (contracts, allocations) h.contracts;
}

SameBooks-IsLinked : (s t : Store) → SameBooks s t → IsLinked s → IsLinked t
SameBooks-IsLinked s t (lots, contracts, allocations) h = rw (lots, contracts, allocations) h

update_status-SameBooks :
    (id : ℕ) (input : ShipmentStatusInput) (actor : AuthContext) (s : Store)
    → SameBooks s (update_status id input actor s).1
update_status-SameBooks id input actor s =
    rw (update_status_lem id input actor s) (go (read_shipment id input actor s))
  where
    go : (o : Option Shipment) → SameBooks s (status_outcome id input actor s o).1
    go none = (refl, refl, refl)
    go (some r) = ground arith

create_direct_agreement-SameBooks :
    (id : ℕ) (input : DirectAgreementInput) (actor : AuthContext) (s : Store)
    → SameBooks s (create_direct_agreement id input actor s).1
create_direct_agreement-SameBooks id input actor s =
    rw (create_direct_agreement_lem id input actor s)
      (go (find (owned input.supplier_id actor.organization_id) s.suppliers))
  where
    go : (o : Option Supplier) → SameBooks s (agreement_outcome id input actor s o).1
    go none = (refl, refl, refl)
    go (some r) = ground arith

create_cost_entry-SameBooks :
    (id : ℕ) (input : CostEntryInput) (actor : AuthContext) (s : Store)
    → SameBooks s (create_cost_entry id input actor s).1
create_cost_entry-SameBooks id input actor s =
    rw (create_cost_entry_lem id input actor s) (ground arith)

-- A call under an identifier that is taken is refused, so that a new row is named by no allocation.
create_contract-IsBalanced_linked :
    (id : ℕ) (input : ContractInput) (actor : AuthContext) (s : Store)
    → IsLinked s
    → IsBalanced s
    → IsBalanced (create_contract id input actor s).1
create_contract-IsBalanced_linked id input actor s h b =
    elim (Bool-cases (contract_clash id input actor s)) [
      | inl taken ↦
          create_contract_keeps id input actor s IsBalanced b
            (λ fresh. absurd (false≢true (sym fresh ∙ taken)))
      | inr fresh ↦
          create_contract-IsBalanced id input actor s
            (IsLinked-contract_fresh id s
              (HasRow-absurd id _ s.contracts (λ c e. ground arith) fresh) h)
            b
    ]

create_auction_lot-IsBalanced_linked :
    (lot_id id : ℕ) (input : AuctionLotInput) (actor : AuthContext) (s : Store)
    → IsLinked s
    → IsBalanced s
    → IsBalanced (create_auction_lot lot_id id input actor s).1
create_auction_lot-IsBalanced_linked lot_id id input actor s h b =
    elim (Bool-cases (lot_clash (auction_lot lot_id id input actor) s)) [
      | inl taken ↦
          create_auction_lot_keeps lot_id id input actor s IsBalanced b
            (λ fresh. absurd (false≢true (sym fresh ∙ taken)))
      | inr fresh ↦
          create_auction_lot-IsBalanced lot_id id input actor s
            (IsLinked-lot_fresh lot_id s (HasRow-absurd lot_id _ s.lots (λ l e. ground arith) fresh)
              h)
            b
    ]

-- The key test of `lot_clash` for a delivery does not depend on the agreement.
create_direct_delivery-IsBalanced_linked :
    (lot_id id : ℕ) (input : DirectDeliveryInput) (actor : AuthContext) (s : Store)
    → IsLinked s
    → IsBalanced s
    → IsBalanced (create_direct_delivery lot_id id input actor s).1
create_direct_delivery-IsBalanced_linked lot_id id input actor s h b =
    create_direct_delivery_keeps lot_id id input actor s IsBalanced b (λ agreement fresh.
      let k : IsBalanced (put_lot (delivery_lot lot_id id input actor agreement) s) =
        put_lot-IsBalanced (delivery_lot lot_id id input actor agreement) refl
          (IsLinked-lot_fresh lot_id s (HasRow-absurd lot_id _ s.lots (λ l e. ground arith) fresh)
            h)
          b in
      record { lots = k.lots; contracts = k.contracts })

-- A call whose weights are positive, where the schemas demand it, keeps the weights sound.
pub perform-IsSound : (c : Call) (s : Store) → IsValidated c → IsSound s → IsSound (perform c s)
unfolding perform
perform-IsSound (Call.adjust id input actor) s v h = adjust_stock-IsSound id input actor s h
perform-IsSound (Call.contract id input actor) s v h = create_contract-IsSound id input actor s v h
perform-IsSound (Call.sell_from_lot id contract_id input actor) s v h =
    allocate_lot-IsSound id contract_id input actor h v
perform-IsSound (Call.ship id today input actor) s v h =
    create_shipment-IsSound id today input actor s h
perform-IsSound (Call.advance_status id input actor) s v h =
    SameBooks-IsSound s _ (update_status-SameBooks id input actor s) h
perform-IsSound (Call.buy_at_auction lot_id id input actor) s v h =
    create_auction_lot-IsSound lot_id id input actor s v h
perform-IsSound (Call.agree id input actor) s v h =
    SameBooks-IsSound s _ (create_direct_agreement-SameBooks id input actor s) h
perform-IsSound (Call.deliver lot_id id input actor) s v h =
    create_direct_delivery-IsSound lot_id id input actor s v h
perform-IsSound (Call.enter_cost id input actor) s v h =
    SameBooks-IsSound s _ (create_cost_entry-SameBooks id input actor s) h

pub perform-IsLinked : (c : Call) (s : Store) → IsLinked s → IsLinked (perform c s)
unfolding perform
perform-IsLinked (Call.adjust id input actor) s h = adjust_stock-IsLinked id input actor s h
perform-IsLinked (Call.contract id input actor) s h = create_contract-IsLinked id input actor s h
perform-IsLinked (Call.sell_from_lot id contract_id input actor) s h =
    allocate_lot-IsLinked id contract_id input actor s h
perform-IsLinked (Call.ship id today input actor) s h =
    create_shipment-IsLinked id today input actor s h
perform-IsLinked (Call.advance_status id input actor) s h =
    SameBooks-IsLinked s (update_status id input actor s).1
      (update_status-SameBooks id input actor s) h
perform-IsLinked (Call.buy_at_auction lot_id id input actor) s h =
    create_auction_lot-IsLinked lot_id id input actor s h
perform-IsLinked (Call.agree id input actor) s h =
    SameBooks-IsLinked s (create_direct_agreement id input actor s).1
      (create_direct_agreement-SameBooks id input actor s) h
perform-IsLinked (Call.deliver lot_id id input actor) s h =
    create_direct_delivery-IsLinked lot_id id input actor s h
perform-IsLinked (Call.enter_cost id input actor) s h =
    SameBooks-IsLinked s (create_cost_entry id input actor s).1
      (create_cost_entry-SameBooks id input actor s) h

pub perform-IsBalanced :
    (c : Call) (s : Store) → IsInGrams c → IsConsistent s → IsBalanced (perform c s)
unfolding perform
perform-IsBalanced (Call.adjust id input actor) s g h =
    adjust_stock-IsBalanced id input actor s h.sound g h.balanced
perform-IsBalanced (Call.contract id input actor) s g h =
    create_contract-IsBalanced_linked id input actor s h.linked h.balanced
perform-IsBalanced (Call.sell_from_lot id contract_id input actor) s g h =
    allocate_lot-IsBalanced id contract_id input actor h.sound h.balanced g
perform-IsBalanced (Call.ship id today input actor) s g h =
    create_shipment-IsBalanced id today input actor s h.sound h.balanced
perform-IsBalanced (Call.advance_status id input actor) s g h =
    SameBooks-IsBalanced s _ (update_status-SameBooks id input actor s) h.balanced
perform-IsBalanced (Call.buy_at_auction lot_id id input actor) s g h =
    create_auction_lot-IsBalanced_linked lot_id id input actor s h.linked h.balanced
perform-IsBalanced (Call.agree id input actor) s g h =
    SameBooks-IsBalanced s _ (create_direct_agreement-SameBooks id input actor s) h.balanced
perform-IsBalanced (Call.deliver lot_id id input actor) s g h =
    create_direct_delivery-IsBalanced_linked lot_id id input actor s h.linked h.balanced
perform-IsBalanced (Call.enter_cost id input actor) s g h =
    SameBooks-IsBalanced s _ (create_cost_entry-SameBooks id input actor s) h.balanced
