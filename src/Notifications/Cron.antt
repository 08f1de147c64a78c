-- ===== src/Notifications/Cron.antt =====
-- The daily alerts (src/modules/notifications/notifications.cron.ts). Each row is reached at a time
-- of its own, and the users are read anew for each notice; times are milliseconds, and the end of a
-- shipment window is a number of days.
use ceoma_api.Prelude.{
  ℕ, suc, ◌+◌, ◌*◌, ◌/◌, ℤ, pos, negsuc, sub_ℕ, ◌-ℤ◌, ltb_ℤ, leb_ℤ, max_ℤ, Bool, true, false, ◌&&◌,
  not, Option, none, some, List, [], ◌∷◌, map, String, ltb, leb, ◌==◌, if◌then◌else◌, is_some,
}
use ceoma_api.Errors.{Result}
use ceoma_api.Quantity.{epsilon}
use ceoma_api.Sql.{find}
use ceoma_api.Store.{ContractStatus, Contract}
use ceoma_api.Sessions.{UserRow}
use ceoma_api.Sessions.Keys.{ApiKeyRow}
use ceoma_api.Notifications.{Mail, Mailer, SendResult, notify_by_roles}
use ceoma_api.Notifications.Templates.{Format, ContractRiskPayload, ApiKeyExpiryPayload}
use ceoma_api.Notifications.Events.{contract_risk_notice, api_key_expiring_notice}

-- `MS_PER_DAY`
abbrev pub ms_per_day : ℕ
ms_per_day = 86400000

-- `Math.floor` and `Math.ceil` of so many milliseconds in days
unfoldable pub floor_days : ℤ → ℤ
floor_days (pos n) = pos (n / ms_per_day)
floor_days (negsuc n) = negsuc (n / ms_per_day)

unfoldable pub ceil_days : ℤ → ℤ
ceil_days (pos n) = pos ((n + 86399999) / ms_per_day)
ceil_days (negsuc n) = sub_ℕ 0 (suc n / ms_per_day)

-- `midnight` is the time at which the driver has a date begin, midnight where the process runs.
unfoldable pub days_until : (midnight : ℕ → ℕ) (date now : ℕ) → ℤ
unfolding floor_days
days_until midnight date now = floor_days (pos (midnight date) -ℤ pos now)

-- `status IN ('open', 'partially_fulfilled')`
abbrev pub is_open : ContractStatus → Bool
is_open ContractStatus.open_for_allocation = true
is_open ContractStatus.partially_fulfilled = true
is_open _ = false

abbrev pub unallocated : Contract → ℤ
unallocated c = max_ℤ (c.quantity_kg -ℤ c.allocated_kg) (pos 0)

abbrev pub risk_payload : (midnight : ℕ → ℕ) → ℕ → Contract → ContractRiskPayload
risk_payload midnight now c = record {
  organization_id = c.organization_id;
  contract_number = c.contract_number;
  days_to_window_close = days_until midnight c.shipment_window_end now;
  unallocated_kg = unallocated c;
}

abbrev pub is_at_risk : (midnight : ℕ → ℕ) (window_days : ℤ) → ℕ → Contract → Bool
is_at_risk midnight window_days now c =
    ltb_ℤ epsilon (unallocated c)
    && leb_ℤ (days_until midnight c.shipment_window_end now) window_days

-- A key and its owner's organization and email
pub record ExpiringKey : Type 0 where
  pub organization_id : ℕ
  pub name : String
  pub key_prefix : String
  pub expires_at : ℕ
  pub owner_email : String

-- The row of the join for a key, where the statement's conditions hold at its time
abbrev pub expiring_key : (window_days now : ℕ) → List UserRow → ApiKeyRow → Option ExpiringKey
expiring_key window_days now users k = elim k.expires_at [
  | none ↦ none
  | some expires_at ↦ elim (find (λ u. u.id == k.user_id) users) [
    | none ↦ none
    | some u ↦
        if k.is_active
          && not (is_some k.revoked_at)
          && u.is_active
          && ltb now expires_at
          && leb expires_at (now + window_days * ms_per_day)
        then some (record {
          organization_id = u.organization_id;
          name = k.name;
          key_prefix = k.key_prefix;
          expires_at = expires_at;
          owner_email = u.email;
        })
        else none
  ]
]

-- `ORDER BY expires_at ASC`; keys that expire at once stay in the order of the table.
unfoldable pub add_by_expiry : ExpiringKey → List ExpiringKey → List ExpiringKey
add_by_expiry k [] = k ∷ []
add_by_expiry k (j ∷ ks) =
    if leb k.expires_at j.expires_at then k ∷ j ∷ ks else j ∷ add_by_expiry k ks

unfoldable pub expiring_keys :
    (window_days now : ℕ) → List UserRow → List ApiKeyRow → List ExpiringKey
unfolding add_by_expiry
expiring_keys window_days now users [] = []
expiring_keys window_days now users (k ∷ ks) =
    let rest = expiring_keys window_days now users ks in
    elim (expiring_key window_days now users k) [ none ↦ rest | some row ↦ add_by_expiry row rest ]

abbrev pub expiry_payload : ℕ → ExpiringKey → ApiKeyExpiryPayload
expiry_payload now k = record {
  organization_id = k.organization_id;
  key_name = k.name;
  key_prefix = k.key_prefix;
  expires_at = k.expires_at;
  days_to_expiry = max_ℤ (ceil_days (pos k.expires_at -ℤ pos now)) (pos 0);
  owner_email = k.owner_email;
}

module _ (f : Format) (lower : String → String) (mailer : Mailer) where
  -- One result of `notifyByRoles` for each alert
  unfoldable pub send_contract_risk_alerts :
      (midnight : ℕ → ℕ) (window_days : ℤ) (now : Contract → ℕ)
      (users : Contract → Result (List UserRow))
      → List Contract
      → List (Option SendResult × List Mail)
  send_contract_risk_alerts midnight window_days now users [] = []
  send_contract_risk_alerts midnight window_days now users (c ∷ cs) =
      let rest = send_contract_risk_alerts midnight window_days now users cs in
      if is_open c.status && is_at_risk midnight window_days (now c) c
      then notify_by_roles lower mailer (users c)
          (contract_risk_notice f (risk_payload midnight (now c) c))
        ∷ rest
      else rest

  unfoldable pub send_api_key_expiry_alerts :
      (now : ExpiringKey → ℕ) (users : ExpiringKey → Result (List UserRow))
      → List ExpiringKey
      → List (Option SendResult × List Mail)
  send_api_key_expiry_alerts now users rows =
      map
        (λ k.
          notify_by_roles lower mailer (users k)
            (api_key_expiring_notice f (expiry_payload (now k) k)))
        rows
