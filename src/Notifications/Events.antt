-- ===== src/Notifications/Events.antt =====
-- The notices that the services send (src/modules/notifications/notifications.service.ts).
use Prim.Native.String
use ceoma_api.Prelude.{Option, none, some, List, [], ◌∷◌, String}
use ceoma_api.Errors.{Result}
use ceoma_api.Store.{UserRole, ShipmentStatus}
use ceoma_api.Sessions.{UserRow}
use ceoma_api.Notifications.{Mail, Mailer, Notice, SendResult, notify_by_roles}
use ceoma_api.Notifications.Templates.{
  ShipmentCreatedPayload, ShipmentStatusPayload, DocumentsReadyPayload, ContractCreatedPayload,
  ContractFullyAllocatedPayload, StockAdjustedPayload, ContractRiskPayload, ApiKeyExpiryPayload,
  Format, status_text, math_round, shipment_created_template, shipment_status_template,
  documents_ready_template, contract_created_template, contract_fully_allocated_template,
  stock_adjusted_template, contract_risk_template, api_key_expiring_template,
}

-- A template literal with one text put in
abbrev subject_of : String → String → String → String
subject_of before t after = String.◌++◌ before (String.◌++◌ t after)

-- `statusRecipients`
abbrev pub status_recipients : ShipmentStatus → Option (List UserRole)
status_recipients ShipmentStatus.planned = none
status_recipients ShipmentStatus.stuffed = some (UserRole.admin ∷ UserRole.warehouse ∷ [])
status_recipients ShipmentStatus.cleared =
    some (UserRole.admin ∷ UserRole.finance ∷ UserRole.compliance ∷ [])
status_recipients ShipmentStatus.on_vessel = some (UserRole.admin ∷ UserRole.trader ∷ [])
status_recipients ShipmentStatus.completed = some (UserRole.admin ∷ UserRole.finance ∷ [])

module _ (f : Format) where
  unfoldable pub shipment_created_notice : ShipmentCreatedPayload → Notice
  shipment_created_notice p = record {
    roles = UserRole.admin ∷ UserRole.trader ∷ [];
    organization_id = p.organization_id;
    subject = subject_of "Shipment " p.shipment_number " planned";
    html = shipment_created_template f p;
    extra_recipients = none;
  }

  unfoldable pub shipment_status_notice : ShipmentStatusPayload → List UserRole → Notice
  shipment_status_notice p roles = record {
    roles = roles;
    organization_id = p.organization_id;
    subject =
        subject_of "Shipment " p.shipment_number
          (subject_of " is now " (status_text p.new_status) "");
    html = shipment_status_template f p;
    extra_recipients = none;
  }

  unfoldable pub documents_ready_notice : DocumentsReadyPayload → Notice
  documents_ready_notice p = record {
    roles = UserRole.admin ∷ UserRole.compliance ∷ [];
    organization_id = p.organization_id;
    subject = subject_of "Documents ready for shipment " p.shipment_number "";
    html = documents_ready_template f p;
    extra_recipients = none;
  }

  unfoldable pub contract_created_notice : ContractCreatedPayload → Notice
  contract_created_notice p = record {
    roles = UserRole.admin ∷ UserRole.trader ∷ [];
    organization_id = p.organization_id;
    subject = subject_of "New contract " p.contract_number " created";
    html = contract_created_template f p;
    extra_recipients = none;
  }

  unfoldable pub contract_fully_allocated_notice : ContractFullyAllocatedPayload → Notice
  contract_fully_allocated_notice p = record {
    roles = UserRole.admin ∷ UserRole.trader ∷ [];
    organization_id = p.organization_id;
    subject = subject_of "Contract " p.contract_number " fully allocated";
    html = contract_fully_allocated_template f p;
    extra_recipients = none;
  }

  unfoldable pub stock_adjusted_notice : StockAdjustedPayload → Notice
  stock_adjusted_notice p = record {
    roles = UserRole.admin ∷ UserRole.warehouse ∷ [];
    organization_id = p.organization_id;
    subject = subject_of "Stock adjustment on lot " p.lot_code "";
    html = stock_adjusted_template f p;
    extra_recipients = none;
  }

  unfoldable pub contract_risk_notice : ContractRiskPayload → Notice
  contract_risk_notice p = record {
    roles = UserRole.admin ∷ UserRole.trader ∷ [];
    organization_id = p.organization_id;
    subject =
        subject_of "Risk alert: contract " p.contract_number
          (subject_of " has " (f.number_text (math_round p.unallocated_kg)) " kg unallocated");
    html = contract_risk_template f p;
    extra_recipients = none;
  }

  unfoldable pub api_key_expiring_notice : ApiKeyExpiryPayload → Notice
  api_key_expiring_notice p = record {
    roles = UserRole.admin ∷ [];
    organization_id = p.organization_id;
    subject =
        subject_of "API key " p.key_name
          (subject_of " expires in " (f.number_text p.days_to_expiry) " day(s)");
    html = api_key_expiring_template f p;
    extra_recipients = some (p.owner_email ∷ []);
  }

  module _ (lower : String → String) (mailer : Mailer) (users : Result (List UserRow)) where
    -- A status without a rule is not told to anybody.
    unfoldable pub notify_shipment_status_changed :
        ShipmentStatusPayload → Option SendResult × List Mail
    unfolding shipment_status_notice
    notify_shipment_status_changed p = elim (status_recipients p.new_status) [
      | none ↦ (none, [])
      | some roles ↦ notify_by_roles lower mailer users (shipment_status_notice p roles)
    ]
