-- ===== src/Notifications/Templates.antt =====
-- The eight mails (src/modules/notifications/templates) and their payloads
-- (src/modules/notifications/notifications.types.ts). `number_text` is `String(n)`, and `iso_text` is
-- `new Date(text).toISOString()`, with `none` for a date that is not valid.
use ceoma_api.Prelude.{
  ℕ, ◌+◌, ◌/◌, ℤ, pos, negsuc, sub_ℕ, Option, none, some, List, [], ◌∷◌, String, str_eq,
  if◌then◌else◌,
}
use Prim.Native.String
use ceoma_api.Store.{ShipmentStatus}
use ceoma_api.Notifications.Html.{render_template, format_date_only}

abbrev pub status_text : ShipmentStatus → String
status_text ShipmentStatus.planned = "planned"
status_text ShipmentStatus.stuffed = "stuffed"
status_text ShipmentStatus.cleared = "cleared"
status_text ShipmentStatus.on_vessel = "on_vessel"
status_text ShipmentStatus.completed = "completed"

-- `Math.round` of so many millionths: the nearest integer, the greater of two.
unfoldable pub math_round : ℤ → ℤ
math_round (pos n) = pos ((n + 500000) / 1000000)
math_round (negsuc n) = sub_ℕ 0 ((n + 500000) / 1000000)

-- `join(", ")`
unfoldable pub joined_texts : List String → String
joined_texts [] = ""
joined_texts (t ∷ []) = t
joined_texts (t ∷ u ∷ ts) = String.◌++◌ t (String.◌++◌ ", " (joined_texts (u ∷ ts)))

pub record ShipmentCreatedPayload : Type 0 where
  pub organization_id : ℕ
  pub shipment_number : String
  pub contract_number : String
  pub lot_codes : List String

pub record ShipmentStatusPayload : Type 0 where
  pub organization_id : ℕ
  pub shipment_number : String
  pub contract_number : String
  pub new_status : ShipmentStatus
  pub actual_departure : Option String

pub record DocumentsReadyPayload : Type 0 where
  pub organization_id : ℕ
  pub shipment_number : String
  pub contract_number : String
  pub buyer_name : String
  pub doc_types : List String

pub record ContractCreatedPayload : Type 0 where
  pub organization_id : ℕ
  pub contract_number : String
  pub buyer_name : String
  pub quantity_kg : ℤ
  pub shipment_window_start : String
  pub shipment_window_end : String

pub record ContractFullyAllocatedPayload : Type 0 where
  pub organization_id : ℕ
  pub contract_number : String
  pub allocated_kg : ℤ

pub record StockAdjustedPayload : Type 0 where
  pub organization_id : ℕ
  pub lot_code : String
  pub adjustment_kg : ℤ
  pub reason : String
  pub approved_by : String

pub record ContractRiskPayload : Type 0 where
  pub organization_id : ℕ
  pub contract_number : String
  pub days_to_window_close : ℤ
  pub unallocated_kg : ℤ

-- The time of expiry is in milliseconds.
pub record ApiKeyExpiryPayload : Type 0 where
  pub organization_id : ℕ
  pub key_name : String
  pub key_prefix : String
  pub expires_at : ℕ
  pub days_to_expiry : ℤ
  pub owner_email : String

-- The texts of numbers and dates
pub record Format : Type 0 where
  pub number_text : ℤ → String
  pub iso_text : String → Option String
  pub iso_time : ℕ → Option String

module _ (f : Format) where
  -- An empty text is shown as a missing date.
  abbrev pub date_text : Option String → String
  date_text none = format_date_only f.iso_text none
  date_text (some t) = format_date_only f.iso_text (if str_eq t "" then none else some t)

  abbrev pub rounded : ℤ → String
  rounded kg = f.number_text (math_round kg)

  unfoldable pub shipment_created_template : ShipmentCreatedPayload → String
  shipment_created_template p =
      render_template "Shipment Planned" "A new shipment has been created." (
        ("Shipment", p.shipment_number)
        ∷ ("Contract", p.contract_number)
        ∷ ("Lots", elim p.lot_codes [ [] ↦ "N/A" | code ∷ codes ↦ joined_texts (code ∷ codes) ])
        ∷ [])

  unfoldable pub shipment_status_template : ShipmentStatusPayload → String
  shipment_status_template p = render_template "Shipment Status Updated" "Shipment stage changed." (
      ("Shipment", p.shipment_number)
      ∷ ("Contract", p.contract_number)
      ∷ ("New Status", status_text p.new_status)
      ∷ ("Actual Departure", date_text p.actual_departure)
      ∷ [])

  unfoldable pub documents_ready_template : DocumentsReadyPayload → String
  documents_ready_template p =
      render_template "Shipment Documents Ready" "Shipment export documents were generated." (
        ("Shipment", p.shipment_number)
        ∷ ("Contract", p.contract_number)
        ∷ ("Buyer", p.buyer_name)
        ∷ ("Documents", joined_texts p.doc_types)
        ∷ [])

  unfoldable pub contract_created_template : ContractCreatedPayload → String
  contract_created_template p =
      let window =
        String.◌++◌ (date_text (some p.shipment_window_start))
          (String.◌++◌ " to " (date_text (some p.shipment_window_end))) in
      render_template "Contract Created" "A new sales contract was created." (
        ("Contract", p.contract_number)
        ∷ ("Buyer", p.buyer_name)
        ∷ ("Quantity (kg)", rounded p.quantity_kg)
        ∷ ("Shipment Window", window)
        ∷ [])

  unfoldable pub contract_fully_allocated_template : ContractFullyAllocatedPayload → String
  contract_fully_allocated_template p =
      render_template "Contract Fully Allocated" "All required quantity is now allocated."
        (("Contract", p.contract_number) ∷ ("Allocated (kg)", rounded p.allocated_kg) ∷ [])

  unfoldable pub stock_adjusted_template : StockAdjustedPayload → String
  stock_adjusted_template p =
      render_template "Stock Adjustment Recorded" "A lot quantity was adjusted." (
        ("Lot", p.lot_code)
        ∷ ("Adjustment (kg)", rounded p.adjustment_kg)
        ∷ ("Reason", p.reason)
        ∷ ("Approved By", p.approved_by)
        ∷ [])

  unfoldable pub contract_risk_template : ContractRiskPayload → String
  contract_risk_template p =
      render_template "Contract Risk Alert"
        "A contract has unallocated quantity near shipment window close."
        (("Contract", p.contract_number)
          ∷ ("Unallocated (kg)", rounded p.unallocated_kg)
          ∷ ("Days to Window Close", f.number_text p.days_to_window_close)
          ∷ [])

  unfoldable pub api_key_expiring_template : ApiKeyExpiryPayload → String
  api_key_expiring_template p =
      render_template "API Key Expiry Alert" "An active API key is close to expiry." (
        ("Key Name", p.key_name)
        ∷ ("Key Prefix", p.key_prefix)
        ∷ ("Owner", p.owner_email)
        ∷ ("Expires On", format_date_only f.iso_time (some p.expires_at))
        ∷ ("Days to Expiry", f.number_text p.days_to_expiry)
        ∷ [])
