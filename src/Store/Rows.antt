-- ===== src/Store/Rows.antt =====
-- The rows of the trading tables (prisma/schema.prisma), with the columns that the services read or
-- write. A UUID is a number, a date is a number of days, a weight or an amount is in millionths.
use ceoma_api.Prelude.{ℕ, ℤ, Option, List, String, Bool, true, false}
use ceoma_api.Sql.{Row}

pub data SupplierType : Type 0 where
  auction_agent mill farmer other : SupplierType

pub data LotSource : Type 0 where
  auction direct : LotSource

pub data LotStatus : Type 0 where
  in_stock allocated picked stuffed shipped : LotStatus

pub data ContractStatus : Type 0 where
  open_for_allocation partially_fulfilled fulfilled closed : ContractStatus

pub data AllocationStatus : Type 0 where
  allocated shipped cancelled : AllocationStatus

pub data ShipmentStatus : Type 0 where
  planned stuffed cleared on_vessel completed : ShipmentStatus

pub data DocumentType : Type 0 where
  commercial_invoice packing_list traceability_report cost_breakdown_summary : DocumentType

pub data UserRole : Type 0 where
  admin trader warehouse finance compliance : UserRole

pub data AuthType : Type 0 where
  jwt api_key : AuthType

-- `AuthContext`
pub record AuthContext : Type 0 where
  pub auth_type : AuthType
  pub user_id : ℕ
  pub role : UserRole
  pub organization_id : ℕ
  pub session_id : Option ℕ
  pub api_key_id : Option ℕ
  pub impersonated : Option Bool

pub record Supplier : Type 0 where
  pub id : ℕ
  pub organization_id : ℕ
  pub name : String
  pub supplier_type : SupplierType
  pub country : Option String

-- A buyer, grade, warehouse or bag type: its identifier, owner, and name or code; the country of a
-- buyer, the location of a warehouse or the description of a grade; and the weight of a bag type,
-- which is 0 in the other tables.
pub record Reference : Type 0 where
  pub id : ℕ
  pub organization_id : ℕ
  pub name : String
  pub detail : Option String
  pub weight_kg : ℤ

pub record Lot : Type 0 where
  pub id : ℕ
  pub organization_id : ℕ
  pub lot_code : String
  pub source : LotSource
  pub source_reference : String
  pub supplier_id : ℕ
  pub grade_id : ℕ
  pub warehouse_id : ℕ
  pub bag_type_id : ℕ
  pub crop_year : String
  pub bags_total : ℕ
  pub weight_total_kg : ℤ
  pub weight_available_kg : ℤ
  pub purchase_price_per_kg : ℤ
  pub auction_fees_total : ℤ
  pub additional_cost_total : ℤ
  pub status : LotStatus

pub record Contract : Type 0 where
  pub id : ℕ
  pub organization_id : ℕ
  pub contract_number : String
  pub buyer_id : ℕ
  pub grade_id : Option ℕ
  pub quantity_kg : ℤ
  pub price_per_kg : ℤ
  pub price_terms : String
  pub currency : String
  pub shipment_window_start : ℕ
  pub shipment_window_end : ℕ
  pub allocated_kg : ℤ
  pub shipped_kg : ℤ
  pub status : ContractStatus

pub record Allocation : Type 0 where
  pub id : ℕ
  pub organization_id : ℕ
  pub contract_id : ℕ
  pub lot_id : ℕ
  pub allocated_kg : ℤ
  pub status : AllocationStatus
  pub shipment_id : Option ℕ

-- One entry of `traceabilitySnapshot.lots`
pub record SnapshotLot : Type 0 where
  pub allocation_id : ℕ
  pub lot_id : ℕ
  pub lot_code : String
  pub source : LotSource
  pub supplier_id : ℕ
  pub grade_id : ℕ
  pub allocated_kg : ℤ

pub record Snapshot : Type 0 where
  pub contract_id : ℕ
  pub contract_number : String
  pub shipment_number : String
  pub created_on : ℕ
  pub lots : List SnapshotLot

pub record Shipment : Type 0 where
  pub id : ℕ
  pub organization_id : ℕ
  pub shipment_number : String
  pub contract_id : ℕ
  pub status : ShipmentStatus
  pub container_number : Option String
  pub seal_number : Option String
  pub planned_departure : Option ℕ
  pub actual_departure : Option ℕ
  pub traceability_snapshot : Option Snapshot

pub record StockAdjustment : Type 0 where
  pub id : ℕ
  pub organization_id : ℕ
  pub lot_id : ℕ
  pub adjustment_kg : ℤ
  pub reason : String
  pub approved_by : String

pub record AuctionProcurement : Type 0 where
  pub id : ℕ
  pub organization_id : ℕ
  pub lot_id : ℕ
  pub auction_lot_number : String
  pub marketing_agent_id : ℕ
  pub catalog_document_path : Option String
  pub immutable : Bool

pub record DirectAgreement : Type 0 where
  pub id : ℕ
  pub organization_id : ℕ
  pub supplier_id : ℕ
  pub agreement_reference : String
  pub agreed_price_per_kg : ℤ
  pub currency : String
  pub crop_year : String

pub record DirectDelivery : Type 0 where
  pub id : ℕ
  pub organization_id : ℕ
  pub agreement_id : ℕ
  pub lot_id : ℕ
  pub delivery_reference : String
  pub moisture_percent : ℤ
  pub screen_size : ℤ
  pub defects_percent : ℤ

pub record CostEntry : Type 0 where
  pub id : ℕ
  pub organization_id : ℕ
  pub lot_id : Option ℕ
  pub shipment_id : Option ℕ
  pub category : String
  pub amount : ℤ
  pub currency : String
  pub notes : Option String

pub record Store : Type 0 where
  pub suppliers : List Supplier
  pub buyers : List Reference
  pub grades : List Reference
  pub warehouses : List Reference
  pub bag_types : List Reference
  pub lots : List Lot
  pub contracts : List Contract
  pub allocations : List Allocation
  pub shipments : List Shipment
  pub stock_adjustments : List StockAdjustment
  pub auction_procurements : List AuctionProcurement
  pub direct_agreements : List DirectAgreement
  pub direct_deliveries : List DirectDelivery
  pub cost_entries : List CostEntry

instance abbrev pub supplier_row : Row Supplier
supplier_row = record { id_of = λ r. r.id; org_of = λ r. r.organization_id }

instance abbrev pub reference_row : Row Reference
reference_row = record { id_of = λ r. r.id; org_of = λ r. r.organization_id }

instance abbrev pub lot_row : Row Lot
lot_row = record { id_of = λ r. r.id; org_of = λ r. r.organization_id }

instance abbrev pub contract_row : Row Contract
contract_row = record { id_of = λ r. r.id; org_of = λ r. r.organization_id }

instance abbrev pub allocation_row : Row Allocation
allocation_row = record { id_of = λ r. r.id; org_of = λ r. r.organization_id }

instance abbrev pub shipment_row : Row Shipment
shipment_row = record { id_of = λ r. r.id; org_of = λ r. r.organization_id }

instance abbrev pub agreement_row : Row DirectAgreement
agreement_row = record { id_of = λ r. r.id; org_of = λ r. r.organization_id }

-- `status = 'allocated'` on an allocation
abbrev pub is_allocated : Allocation → Bool
is_allocated a = elim a.status [ AllocationStatus.allocated ↦ true | _ ↦ false ]

-- `status = 'shipped'` on an allocation
abbrev pub is_shipped : Allocation → Bool
is_shipped a = elim a.status [ AllocationStatus.shipped ↦ true | _ ↦ false ]

abbrev pub is_closed : ContractStatus → Bool
is_closed closed = true
is_closed _ = false
