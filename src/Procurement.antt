-- ===== src/Procurement.antt =====
-- src/modules/procurement/procurement.service.ts: lots bought at auction (`createAuctionLot`), direct
-- agreements (`createDirectAgreement`) and their deliveries (`createDirectDelivery`).
pub mod Places
pub mod Auction
pub mod Direct
use ceoma_api.Prelude.{
  ℕ, ℤ, pos, ◌+ℤ◌, Bool, true, false, not, ◌||◌, ◌&&◌, Option, some, List, ◌∷◌, String, ◌==◌,
  str_eq, if◌then◌else◌, any,
}
use ceoma_api.Errors.{api_error, not_found, text, ok, err}
use ceoma_api.Sql.{owned, find}
use ceoma_api.Quantity.{numeric_2, numeric_3, numeric_4}
use ceoma_api.Store.{
  Store, Lot, LotSource, LotStatus, Supplier, SupplierType, AuctionProcurement, DirectAgreement,
  DirectDelivery, supplier_row, agreement_row, AuthContext, Tx, ◌>>=◌, ◌>>◌, pure, gets, or_throw,
  throw_if, insert_unless, with_transaction,
}
use ceoma_api.DbHelpers.{ensure_reference}

-- `AuctionLotInput`
pub record AuctionLotInput : Type 0 where
  pub lot_number : String
  pub marketing_agent_id : ℕ
  pub grade_id : ℕ
  pub warehouse_id : ℕ
  pub bag_type_id : ℕ
  pub crop_year : String
  pub bags : ℕ
  pub weight_total_kg : ℤ
  pub purchase_price_per_kg : ℤ
  pub auction_fees_total : ℤ
  pub catalog_document_path : Option String

-- `DirectAgreementInput`
pub record DirectAgreementInput : Type 0 where
  pub supplier_id : ℕ
  pub agreement_reference : String
  pub agreed_price_per_kg : ℤ
  pub currency : String
  pub crop_year : String

-- `DirectDeliveryInput`
pub record DirectDeliveryInput : Type 0 where
  pub agreement_id : ℕ
  pub internal_lot_id : String
  pub delivery_reference : String
  pub grade_id : ℕ
  pub warehouse_id : ℕ
  pub bag_type_id : ℕ
  pub bags : ℕ
  pub weight_total_kg : ℤ
  pub moisture_percent : ℤ
  pub screen_size : ℤ
  pub defects_percent : ℤ
  pub processing_cost_total : ℤ
  pub transport_cost_total : ℤ

-- `supplierType === "auction_agent"`
abbrev pub is_auction_agent : Supplier → Bool
is_auction_agent s = elim s.supplier_type [ SupplierType.auction_agent ↦ true | _ ↦ false ]

-- The three references that every new lot has
unfoldable pub check_places : (grade_id warehouse_id bag_type_id org : ℕ) → Tx Store (Unit {0})
check_places grade_id warehouse_id bag_type_id org = do
  ensure_reference "grades" grade_id "Grade" (some org)
  ensure_reference "warehouses" warehouse_id "Warehouse" (some org)
  ensure_reference "bag_types" bag_type_id "Bag type" (some org)

-- `INSERT INTO lots`, under its primary key and `uniq_lots_org_code`
abbrev pub lot_clash : Lot → Store → Bool
lot_clash new s =
    any
      (λ l.
        l.id == new.id
        || (l.organization_id == new.organization_id && str_eq l.lot_code new.lot_code))
      s.lots

abbrev pub put_lot : Lot → Store → Store
put_lot new s = record s { lots = new ∷ s.lots }

module _ (lot_id record_id : ℕ) (input : AuctionLotInput) (actor : AuthContext) where
  abbrev pub auction_lot : Lot
  auction_lot = record {
    id = lot_id;
    organization_id = actor.organization_id;
    lot_code = input.lot_number;
    source = LotSource.auction;
    source_reference = input.lot_number;
    supplier_id = input.marketing_agent_id;
    grade_id = input.grade_id;
    warehouse_id = input.warehouse_id;
    bag_type_id = input.bag_type_id;
    crop_year = input.crop_year;
    bags_total = input.bags;
    weight_total_kg = numeric_3 input.weight_total_kg;
    weight_available_kg = numeric_3 input.weight_total_kg;
    purchase_price_per_kg = numeric_4 input.purchase_price_per_kg;
    auction_fees_total = numeric_2 input.auction_fees_total;
    additional_cost_total = pos 0;
    status = LotStatus.in_stock;
  }

  abbrev pub auction_record : AuctionProcurement
  auction_record = record {
    id = record_id;
    organization_id = actor.organization_id;
    lot_id = lot_id;
    auction_lot_number = input.lot_number;
    marketing_agent_id = input.marketing_agent_id;
    catalog_document_path = input.catalog_document_path;
    immutable = true;
  }

  abbrev pub auction_clash : Store → Bool
  auction_clash s = any (λ r. r.id == record_id || r.lot_id == lot_id) s.auction_procurements

  -- The inserts of `createAuctionLot`, once the agent and the references are checked
  unfoldable pub insert_auction : Tx Store Lot
  insert_auction = do
    insert_unless (lot_clash auction_lot) (put_lot auction_lot)
    insert_unless auction_clash
        (λ s. record s { auction_procurements = auction_record ∷ s.auction_procurements })
    pure auction_lot

  -- `createAuctionLot`; `lot_id` and `record_id` are the UUIDs that it draws.
  unfoldable pub create_auction_lot : Tx Store Lot
  unfolding find check_places
  create_auction_lot = with_transaction do
    supplier ←
        or_throw
          (← gets (λ s. find (owned input.marketing_agent_id actor.organization_id) s.suppliers))
          (api_error 404 (not_found "Supplier" input.marketing_agent_id))
    throw_if (not (is_auction_agent supplier)) (
        api_error 400 (text "marketing_agent_id must reference a supplier with type auction_agent"))
    check_places input.grade_id input.warehouse_id input.bag_type_id actor.organization_id
    insert_auction

module _ (agreement_id : ℕ) (input : DirectAgreementInput) (actor : AuthContext) where
  abbrev pub new_agreement : DirectAgreement
  new_agreement = record {
    id = agreement_id;
    organization_id = actor.organization_id;
    supplier_id = input.supplier_id;
    agreement_reference = input.agreement_reference;
    agreed_price_per_kg = numeric_4 input.agreed_price_per_kg;
    currency = input.currency;
    crop_year = input.crop_year;
  }

  -- `createDirectAgreement`
  unfoldable pub create_direct_agreement : Tx Store DirectAgreement
  unfolding find
  create_direct_agreement = with_transaction do
    supplier ←
        or_throw (← gets (λ s. find (owned input.supplier_id actor.organization_id) s.suppliers))
          (api_error 404 (not_found "Supplier" input.supplier_id))
    throw_if (is_auction_agent supplier)
        (api_error 400 (text "Direct procurement supplier cannot be an auction marketing agent"))
    insert_unless (λ s. any (λ r. r.id == agreement_id) s.direct_agreements)
        (λ s. record s { direct_agreements = new_agreement ∷ s.direct_agreements })
    pure new_agreement

module _ (lot_id record_id : ℕ) (input : DirectDeliveryInput) (actor : AuthContext) where
  abbrev pub delivery_lot : DirectAgreement → Lot
  delivery_lot agreement = record {
    id = lot_id;
    organization_id = actor.organization_id;
    lot_code = input.internal_lot_id;
    source = LotSource.direct;
    source_reference = input.delivery_reference;
    supplier_id = agreement.supplier_id;
    grade_id = input.grade_id;
    warehouse_id = input.warehouse_id;
    bag_type_id = input.bag_type_id;
    crop_year = agreement.crop_year;
    bags_total = input.bags;
    weight_total_kg = numeric_3 input.weight_total_kg;
    weight_available_kg = numeric_3 input.weight_total_kg;
    purchase_price_per_kg = numeric_4 agreement.agreed_price_per_kg;
    auction_fees_total = pos 0;
    additional_cost_total = numeric_2 (input.processing_cost_total +ℤ input.transport_cost_total);
    status = LotStatus.in_stock;
  }

  abbrev pub delivery_record : DirectDelivery
  delivery_record = record {
    id = record_id;
    organization_id = actor.organization_id;
    agreement_id = input.agreement_id;
    lot_id = lot_id;
    delivery_reference = input.delivery_reference;
    moisture_percent = numeric_3 input.moisture_percent;
    screen_size = numeric_3 input.screen_size;
    defects_percent = numeric_3 input.defects_percent;
  }

  abbrev pub delivery_clash : Store → Bool
  delivery_clash s = any (λ r. r.id == record_id || r.lot_id == lot_id) s.direct_deliveries

  -- The inserts of `createDirectDelivery`, once the agreement and the references are checked
  unfoldable pub insert_delivery : DirectAgreement → Tx Store Lot
  insert_delivery agreement = do
    insert_unless (lot_clash (delivery_lot agreement)) (put_lot (delivery_lot agreement))
    insert_unless delivery_clash
        (λ s. record s { direct_deliveries = delivery_record ∷ s.direct_deliveries })
    pure (delivery_lot agreement)

  -- `createDirectDelivery`; `lot_id` and `record_id` are the UUIDs that it draws.
  unfoldable pub create_direct_delivery : Tx Store Lot
  unfolding find check_places
  create_direct_delivery = with_transaction do
    agreement ←
        or_throw
          (← gets (λ s. find (owned input.agreement_id actor.organization_id) s.direct_agreements))
          (api_error 404 (not_found "Direct agreement" input.agreement_id))
    check_places input.grade_id input.warehouse_id input.bag_type_id actor.organization_id
    insert_delivery agreement
